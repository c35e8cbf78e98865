-- ===== src/Server/AuthzenTools.antt =====
-- tool_authzen.go: `registerEvaluateTool`, `registerBatchTool` and `registerDiscoverTool`, the
-- declarations of the three tools. The constants in their texts are written out.
use mcp_opa.Base.{true, false, [], ◌∷◌}
use mcp_opa.Server.Declaration.{
  Declaration, evaluate_output, batch_output, discover_output, description, title, read_only,
  destructive, idempotent, open_world, output_schema, text, required, about, one_of,
}

abbrev pub evaluate_tool : Declaration
evaluate_tool = record {
  name = "authzen_evaluate";
  options =
      description
        "Ask an OpenID AuthZEN 1.0 Policy Decision Point whether a subject may perform an action on a resource. Use this when the answer has to come from the PDP that actually governs the system, rather than from a policy pasted into the conversation. Returns the PDP's decision and any context it attached."
      ∷ title "Ask an AuthZEN PDP for a decision"
      ∷ read_only true
      ∷ destructive false
      ∷ idempotent true
      ∷ open_world true
      ∷ output_schema evaluate_output
      ∷ text "subject" (
          required
          ∷ about
              "JSON object identifying the principal. AuthZEN requires \"type\" and \"id\"; \"properties\" is optional. Example: {\"type\":\"user\",\"id\":\"alice\",\"properties\":{\"department\":\"sales\"}}"
          ∷ [])
      ∷ text "action" (
          required
          ∷ about
              "JSON object naming the action. AuthZEN requires \"name\"; \"properties\" is optional. Example: {\"name\":\"read\"}"
          ∷ [])
      ∷ text "resource" (
          required
          ∷ about
              "JSON object identifying the target. AuthZEN requires \"type\" and \"id\"; \"properties\" is optional. Example: {\"type\":\"document\",\"id\":\"doc-1\",\"properties\":{\"classification\":\"secret\"}}"
          ∷ [])
      ∷ text "context" (
          about
            "Optional JSON object of runtime context the policy may read — IP address, time of day, MFA strength. Example: {\"ip\":\"10.0.0.7\",\"mfa\":\"webauthn\"}"
          ∷ [])
      ∷ text "pdp_url" (
          about
            "Override the configured AUTHZEN_PDP_URL for this call. Must be an absolute http(s) URL to an Access Evaluation endpoint."
          ∷ [])
      ∷ [];
}

abbrev pub batch_tool : Declaration
batch_tool = record {
  name = "authzen_evaluate_batch";
  options =
      description
        "Ask an OpenID AuthZEN 1.0 PDP for several decisions in one round trip (the Access Evaluations API). Use this to answer \"which of these may the subject do\" — filtering a list of resources, or checking every action on one resource — instead of calling authzen_evaluate in a loop. Top-level subject/action/resource/context act as defaults that each entry may override."
      ∷ title "Ask an AuthZEN PDP for many decisions"
      ∷ read_only true
      ∷ destructive false
      ∷ idempotent true
      ∷ open_world true
      ∷ output_schema batch_output
      ∷ text "evaluations" (
          required
          ∷ about
              "JSON array of evaluation objects. Each may carry its own \"subject\", \"action\", \"resource\" and \"context\"; anything omitted falls back to the top-level argument of the same name. Example: [{\"resource\":{\"type\":\"doc\",\"id\":\"1\"}},{\"resource\":{\"type\":\"doc\",\"id\":\"2\"}}]"
          ∷ [])
      ∷ text "subject" (
          about "Default JSON subject for entries that omit one. Requires \"type\" and \"id\"."
          ∷ [])
      ∷ text "action"
          (about "Default JSON action for entries that omit one. Requires \"name\"." ∷ [])
      ∷ text "resource" (
          about "Default JSON resource for entries that omit one. Requires \"type\" and \"id\"."
          ∷ [])
      ∷ text "context" (about "Default JSON context object for entries that omit one." ∷ [])
      ∷ text "evaluations_semantic" (
          about
            "How the PDP should process the list. `execute_all` (default) evaluates every entry; `deny_on_first_deny` and `permit_on_first_permit` let the PDP stop early and return fewer decisions than there were entries."
          ∷ one_of ("execute_all" ∷ "deny_on_first_deny" ∷ "permit_on_first_permit" ∷ [])
          ∷ [])
      ∷ text "pdp_url" (
          about
            "Override the configured AUTHZEN_PDP_URL for this call. Must point at an Access Evaluations (plural) endpoint."
          ∷ [])
      ∷ [];
}

abbrev pub discover_tool : Declaration
discover_tool = record {
  name = "authzen_discover";
  options =
      description
        "Fetch a PDP's AuthZEN metadata document from /.well-known/authzen-configuration to find out which endpoints and capabilities it offers. Use this when a PDP URL is known but its evaluation endpoint is not, or to check whether a PDP supports batch evaluation before calling authzen_evaluate_batch."
      ∷ title "Discover an AuthZEN PDP's endpoints"
      ∷ read_only true
      ∷ destructive false
      ∷ idempotent true
      ∷ open_world true
      ∷ output_schema discover_output
      ∷ text "pdp_url" (
          about
            "The PDP root, e.g. `https://pdp.example.com`. An evaluation endpoint URL is also accepted — the known AuthZEN path suffix is stripped. Defaults to the configured AUTHZEN_PDP_URL."
          ∷ [])
      ∷ [];
}
