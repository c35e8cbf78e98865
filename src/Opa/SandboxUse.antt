-- ===== src/Opa/SandboxUse.antt =====
-- The sandbox in evaluate_policy: OPA is only asked for policies with the sandboxed capabilities.
use mcp_opa.Base.{
  ◌≡◌, ◌≢◌, refl, ap, sym, false, inl, inr, List, [], some, Bytes, codes, ok, map_err, ok-injective,
  >>=-eq-ok, Result-cases,
}
use mcp_opa.Json.{Value}
use mcp_opa.Config.Load.{Config}
use mcp_opa.Args.Read.{Request, required_string, optional_json}
use mcp_opa.Opa.Sandbox.{Capabilities, Builtin, capabilities, without_builtins}
use mcp_opa.Opa.SandboxLaws.{Occurs, capabilities-sandbox}
use mcp_opa.Opa.Evaluate.{
  Policy, Engine, OpaCodec, bad_argument, read_version, read_data, read_policy, prepare,
  evaluate_policy,
}

module _ {Decl Rest : Type 0} where
  -- No built-in of the three can be called, and no host is asked for schemas.
  pub record IsSandboxed (caps : Capabilities Decl Rest) : Type 0 where
    pub lacks :
        (b : Builtin Decl)
        → Occurs b caps.builtins
        → (b.name ≢ "http.send") × (b.name ≢ "net.lookup_ip_addr") × (b.name ≢ "opa.runtime")
    pub asks_no_host : caps.allow_net ≡ some []

  capabilities-IsSandboxed :
      (base : Capabilities Decl Rest) (cfg : Config)
      → cfg.allow_network_builtins ≡ false
      → IsSandboxed (capabilities base cfg)
  capabilities-IsSandboxed base cfg off = record {
    lacks = λ b o. let (occurs, a, n, r) = (capabilities-sandbox base cfg b off).0.0 o in (a, n, r);
    asks_no_host = unfold capabilities without_builtins in rw off refl;
  }

module _ {Decl Rest : Type 0} (base : Capabilities Decl Rest) (codec : OpaCodec) (cfg : Config)
    (req : Request) where
  read_policy-caps :
      (policy : Policy Decl Rest) (input : Value)
      → read_policy base codec cfg req ≡ ok (policy, input)
      → policy.caps ≡ capabilities base cfg
  unfolding read_policy
  read_policy-caps policy input h =
      let (source, h0, h1) =
        >>=-eq-ok (map_err bad_argument (required_string req "rego" cfg.max_arg_bytes)) _ h in
      let (query, h2, h3) =
        >>=-eq-ok (map_err bad_argument (required_string req "query" cfg.max_arg_bytes)) _ h1 in
      let (version, h4, h5) =
        >>=-eq-ok (read_version (req.get_string "rego_version" (codes "v1"))) _ h3 in
      let (given, h6, h7) =
        >>=-eq-ok
          (map_err bad_argument
            (optional_json codec.decode_input req "input_json" cfg.max_arg_bytes))
          _ h5 in
      let (data', h8, h9) =
        >>=-eq-ok
          (map_err bad_argument (optional_json codec.decode_data req "data_json" cfg.max_arg_bytes))
          _ h7 in
      let (store, h10, h11) = >>=-eq-ok (read_data data') _ h9 in
      sym (ap (λ (p : Policy Decl Rest × Value). p.0.caps) (ok-injective h11))

module _ {Decl Rest Event : Type 0} (engine engine' : Engine Decl Rest Event)
    (base : Capabilities Decl Rest) (pretty : List Event → Bytes) (codec : OpaCodec) (cfg : Config)
    (req : Request) where
  -- With network built-ins off, evaluate_policy uses OPA on sandboxed policies alone: it gives the same
  -- with any two versions of OPA that agree on the policies that lack the three built-ins and may ask no
  -- host for schemas.
  pub evaluate_policy-IsSandboxed :
      cfg.allow_network_builtins ≡ false
      → ((policy : Policy Decl Rest)
          → IsSandboxed policy.caps
          → engine cfg.rego_timeout policy ≡ engine' cfg.rego_timeout policy)
      → evaluate_policy engine base pretty codec cfg req
        ≡ evaluate_policy engine' base pretty codec cfg req
  unfolding evaluate_policy prepare
  evaluate_policy-IsSandboxed off agree = elim (Result-cases (read_policy base codec cfg req)) [
    | inl (e, bad) ↦ rw bad refl
    | inr (asked, good) ↦
        let sandboxed : IsSandboxed asked.0.caps =
          rw (read_policy-caps base codec cfg req asked.0 asked.1 good)
            (capabilities-IsSandboxed base cfg off) in
        rw good (rw (agree asked.0 sandboxed, prepare) refl)
  ]
