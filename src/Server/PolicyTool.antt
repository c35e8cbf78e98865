-- ===== src/Server/PolicyTool.antt =====
-- tool_opa.go: `registerOPATool`, the declaration of evaluate_policy.
use mcp_opa.Base.{true, false, [], ◌∷◌}
use mcp_opa.Server.Declaration.{
  Declaration, evaluate_result, description, title, read_only, destructive, idempotent, open_world,
  output_schema, text, flag, required, about, one_of,
}

abbrev pub policy_tool : Declaration
policy_tool = record {
  name = "evaluate_policy";
  options =
      description
        "Evaluate a Rego policy module against an input document and optional data namespace. Runs in-process via OPA; no external service is contacted, and the built-ins that could contact one are disabled. Use this to author or debug a policy whose source you have. Returns the decision, whether the query was defined at all, the raw OPA result set, and any print() output."
      ∷ title "Evaluate a Rego policy"
      ∷ read_only true
      ∷ destructive false
      ∷ idempotent true
      ∷ open_world false
      ∷ output_schema evaluate_result
      ∷ text "rego" (
          required
          ∷ about
              "Rego source for the policy module. Must include a `package` declaration. Rego v1 syntax by default: rule bodies need `if`, and multi-value rules need `contains`."
          ∷ [])
      ∷ text "query" (
          required
          ∷ about
              "Rego query to evaluate, e.g. `data.example.allow` or `data.example.violations[_]`."
          ∷ [])
      ∷ text "input_json"
          (about "JSON-encoded input document — the `input` variable inside the policy." ∷ [])
      ∷ text "data_json" (
          about
            "JSON-encoded base document seeding the `data` namespace, for policies that read reference data."
          ∷ [])
      ∷ text "rego_version" (
          about
            "Rego syntax version: `v1` (default) or `v0` for pre-OPA-1.0 policies written without `if`/`contains`."
          ∷ one_of ("v1" ∷ "v0" ∷ [])
          ∷ [])
      ∷ flag "trace" (
          about
            "Return a pretty-printed evaluation trace. Use this to find out why a rule did not fire; it is verbose, so leave it off until a result is surprising."
          ∷ [])
      ∷ [];
}
