-- ===== src/Config/Errors.antt =====
-- What a failure of `loadConfig` says: which variable is malformed.
use mcp_opa.Base.{
  ℕ, ◌<◌, ◌≡◌, ◌≢◌, Bool, [], Bytes, ◌⊎◌, inl, inr, Result, ok, err, String, >>=-eq-err, arith,
}
use mcp_opa.Config.Numbers.{ℤ, pos, parse_int, parse_bool}
use mcp_opa.Config.Load.{
  ConfigError, not_a_duration, not_an_integer, not_a_boolean, not_positive, Environment,
  DurationParser, duration_env, int64_env, bool_env, load_config, env_pdp_timeout,
  env_pdp_max_bytes, env_rego_timeout, env_max_arg_bytes, env_allow_net_built, default_pdp_timeout,
  default_pdp_max_bytes, default_rego_timeout, default_max_arg_bytes,
}

-- A variable that is set to what cannot be read as a positive number, or as a boolean.
abbrev pub Spoils : {E : Type 0} → (Bytes → Result E ℤ) → Bytes → Type 0
Spoils parse raw = (raw ≢ []) × ((n : ℕ) → 0 < n → parse raw ≢ ok (pos n))

abbrev pub SpoilsFlag : Bytes → Type 0
SpoilsFlag raw = (raw ≢ []) × ((b : Bool) → parse_bool raw ≢ ok b)

-- The variable that an error names.
unfoldable pub culprit : ConfigError → String
culprit (not_a_duration name raw e) = name
culprit (not_an_integer name raw e) = name
culprit (not_a_boolean name raw e) = name
culprit (not_positive name raw) = name

-- The error names a variable that is set and malformed.
abbrev pub IsMalformed : DurationParser → Environment → ConfigError → Type 0
IsMalformed parse env e =
    ((culprit e ≡ "AUTHZEN_PDP_TIMEOUT") × Spoils parse (env "AUTHZEN_PDP_TIMEOUT"))
    ⊎ ((culprit e ≡ "MCP_OPA_EVAL_TIMEOUT") × Spoils parse (env "MCP_OPA_EVAL_TIMEOUT"))
    ⊎ ((culprit e ≡ "AUTHZEN_PDP_MAX_RESPONSE_BYTES")
        × Spoils parse_int (env "AUTHZEN_PDP_MAX_RESPONSE_BYTES"))
    ⊎ ((culprit e ≡ "MCP_MAX_ARG_BYTES") × Spoils parse_int (env "MCP_MAX_ARG_BYTES"))
    ⊎ ((culprit e ≡ "MCP_OPA_ALLOW_NETWORK_BUILTINS")
        × SpoilsFlag (env "MCP_OPA_ALLOW_NETWORK_BUILTINS"))

module _ (env : Environment) (name : String) (def : ℕ) (e : ConfigError) where
  duration_env_err :
      (parse : DurationParser)
      → duration_env parse env name def ≡ err e
      → (culprit e ≡ name) × Spoils parse (env name)
  unfolding duration_env culprit
  duration_env_err parse h = (ground arith, (ground arith, λ n p q. ground arith))

  int64_env_err : int64_env env name def ≡ err e → (culprit e ≡ name) × Spoils parse_int (env name)
  unfolding int64_env culprit
  int64_env_err h = (ground arith, (ground arith, λ n p q. ground arith))

bool_env_err :
    (env : Environment) (name : String) (e : ConfigError)
    → bool_env env name ≡ err e
    → (culprit e ≡ name) × SpoilsFlag (env name)
unfolding bool_env culprit
bool_env_err env name e h = (ground arith, (ground arith, λ b q. ground arith))

-- A failure to load is never spurious: the error names a variable that is set, and whose text is
-- no positive number, or no boolean.
pub load_config-IsMalformed :
    (parse : DurationParser) (env : Environment) {e : ConfigError}
    → load_config parse env ≡ err e
    → IsMalformed parse env e
unfolding load_config
load_config-IsMalformed parse env {e} h =
    elim (>>=-eq-err (duration_env parse env env_pdp_timeout default_pdp_timeout) _ h) [
      | inl bad ↦ inl (duration_env_err env env_pdp_timeout default_pdp_timeout e parse bad)
      | inr (a, e1, h1) ↦
          elim (>>=-eq-err (duration_env parse env env_rego_timeout default_rego_timeout) _ h1) [
            | inl bad ↦
                inr (inl (duration_env_err env env_rego_timeout default_rego_timeout e parse bad))
            | inr (b, e2, h2) ↦
                elim (>>=-eq-err (int64_env env env_pdp_max_bytes default_pdp_max_bytes) _ h2) [
                  | inl bad ↦
                      inr (
                        inr (inl (int64_env_err env env_pdp_max_bytes default_pdp_max_bytes e bad)))
                  | inr (c, e3, h3) ↦
                      elim (>>=-eq-err (int64_env env env_max_arg_bytes default_max_arg_bytes) _
                        h3) [
                          | inl bad ↦ inr (
                              inr (
                                inr (
                                  inl (
                                    int64_env_err env env_max_arg_bytes default_max_arg_bytes e
                                      bad))))
                          | inr (d, e4, h4) ↦
                              elim (>>=-eq-err (bool_env env env_allow_net_built) _ h4) [
                                | inl bad ↦
                                    inr
                                      (inr (inr (inr (bool_env_err env env_allow_net_built e bad))))
                                | inr (f, e5, h5) ↦ cc
                              ]
                        ]
                ]
          ]
    ]
