-- ===== src/Config/Bounds.antt =====
-- The bounds that `loadConfig` gives.
use mcp_opa.Base.{ℕ, ◌<◌, ◌≡◌, Bytes, inl, inr, Result, ok, ◌^◌, arith}
use mcp_opa.Config.Numbers.{ℤ, parse_int, parse_int_bounds}
use mcp_opa.Config.Load.{Config, Environment, DurationParser, load_config}
use mcp_opa.Config.Laws.{Gives, load_config-Describes}

-- Bounds that a request can be made with.
pub record IsBounded (c : Config) : Type 0 where
  pub pdp_time : 0 < c.pdp_timeout
  pub pdp_bytes : (0 < c.pdp_max_bytes) × (c.pdp_max_bytes < 2 ^ 63)
  pub rego_time : 0 < c.rego_timeout
  pub arg_bytes : (0 < c.max_arg_bytes) × (c.max_arg_bytes < 2 ^ 63)

Gives-positive :
    {E : Type 0} (parse : Bytes → Result E ℤ) (raw : Bytes) (def n : ℕ)
    → 0 < def
    → Gives parse raw def n
    → 0 < n
Gives-positive parse raw def n p (inl (u, e)) = omega arith
Gives-positive parse raw def n p (inr (s, e, q)) = q

Gives-int64 : (raw : Bytes) (n : ℕ) → Gives parse_int raw 1048576 n → n < 2 ^ 63
Gives-int64 raw n (inl (u, e)) = omega arith
Gives-int64 raw n (inr (s, e, q)) = parse_int_bounds raw e

-- Of a configuration that is loaded every bound is positive, and the two that are read as integers
-- fit an int64.
pub load_config-IsBounded :
    (parse : DurationParser) (env : Environment) (c : Config)
    → load_config parse env ≡ ok c
    → IsBounded c
load_config-IsBounded parse env c h =
    let d = load_config-Describes parse env c h in
    record {
      pdp_time = Gives-positive parse _ _ _ (omega arith) d.pdp_time;
      pdp_bytes =
          (Gives-positive parse_int _ _ _ (omega arith) d.pdp_bytes, Gives-int64 _ _ d.pdp_bytes);
      rego_time = Gives-positive parse _ _ _ (omega arith) d.rego_time;
      arg_bytes =
          (Gives-positive parse_int _ _ _ (omega arith) d.arg_bytes, Gives-int64 _ _ d.arg_bytes);
    }
