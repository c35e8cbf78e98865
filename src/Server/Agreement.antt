-- ===== src/Server/Agreement.antt =====
-- A handler reads no argument but those that its tool declares, and each as the type declared.
use mcp_opa.Base.{◌≡◌, refl, inl, inr, Bool, true, false, [], Option, Bytes, codes, String, ℕ}
use mcp_opa.Json.{Value, Decode}
use mcp_opa.Config.Load.{Config}
use mcp_opa.Args.Read.{Request, required_string, optional_json, json_object_arg}
use mathlib.Core.Path.{fun_ext}
use mcp_opa.Pdp.Wire.{EvaluationRequest, semantic_execute_all}
use mcp_opa.Authzen.Codec.{Codec}
use mcp_opa.Authzen.Entities.{read_evaluation_args}
use mcp_opa.Authzen.Entries.{read_evaluation_entries}
use mcp_opa.Authzen.Handlers.{authzen_evaluate, authzen_evaluate_batch, authzen_discover}
use mcp_opa.Opa.SandboxLaws.{Occurs}
use mcp_opa.Opa.Evaluate.{read_policy, evaluate_policy}
use mcp_opa.Server.Declaration.{Declaration, texts_of, flags_of}
use mcp_opa.Server.Calls.{
  Libraries, Tool, evaluate_policy_tool, authzen_evaluate_tool, authzen_evaluate_batch_tool,
  authzen_discover_tool, declaration, handler, handle_policy, handle_evaluate, handle_batch,
  handle_discover,
}

-- The requests agree on every argument that is declared.
pub record Agree (d : Declaration) (req req' : Request) : Type 0 where
  pub texts :
      (name : String) (missing : Bytes)
      → Occurs name (texts_of d.options)
      → req.get_string name missing ≡ req'.get_string name missing
  pub flags :
      (name : String) (missing : Bool)
      → Occurs name (flags_of d.options)
      → req.get_bool name missing ≡ req'.get_bool name missing

module _ (req req' : Request) (name : String)
    (same : req.get_string name [] ≡ req'.get_string name []) where
  required_string-agree : (max : ℕ) → required_string req name max ≡ required_string req' name max
  unfolding required_string
  required_string-agree max = rw same

  optional_json-agree :
      {A : Type 0} (decode : Decode A) (max : ℕ)
      → optional_json decode req name max ≡ optional_json decode req' name max
  unfolding optional_json
  optional_json-agree decode max = rw same

  json_object_arg-agree :
      (decode : Decode Value) (max : ℕ) (required : Bool)
      → json_object_arg decode req name max required ≡ json_object_arg decode req' name max required
  unfolding json_object_arg
  json_object_arg-agree decode max required = rw same

module _ (codec : Codec) (cfg : Config) (req req' : Request) where
  read_evaluation_args-agree :
      (required : Bool)
      → req.get_string "subject" [] ≡ req'.get_string "subject" []
      → req.get_string "action" [] ≡ req'.get_string "action" []
      → req.get_string "resource" [] ≡ req'.get_string "resource" []
      → req.get_string "context" [] ≡ req'.get_string "context" []
      → read_evaluation_args codec req cfg required ≡ read_evaluation_args codec req' cfg required
  unfolding read_evaluation_args
  read_evaluation_args-agree required s a r c = rw (
    json_object_arg-agree req req' "subject" s codec.any cfg.max_arg_bytes required,
    json_object_arg-agree req req' "action" a codec.any cfg.max_arg_bytes required,
    json_object_arg-agree req req' "resource" r codec.any cfg.max_arg_bytes required,
    json_object_arg-agree req req' "context" c codec.any cfg.max_arg_bytes false,
  )

  read_evaluation_entries-agree :
      (defaults : EvaluationRequest)
      → req.get_string "evaluations" [] ≡ req'.get_string "evaluations" []
      → read_evaluation_entries codec req cfg defaults
        ≡ read_evaluation_entries codec req' cfg defaults
  unfolding read_evaluation_entries
  read_evaluation_entries-agree defaults same =
      rw (optional_json-agree req req' "evaluations" same codec.array cfg.max_arg_bytes)

module _ {Decl Rest Event : Type 0} (libs : Libraries Decl Rest Event) (cfg : Config)
    (req req' : Request) (entropy : Option Bytes) where
  policy-Agree :
      Agree (declaration evaluate_policy_tool) req req'
      → handle_policy libs cfg entropy req ≡ handle_policy libs cfg entropy req'
  unfolding handle_policy evaluate_policy read_policy
  policy-Agree a = rw (
    required_string-agree req req' "rego" (a.texts "rego" [] (inl refl)) cfg.max_arg_bytes,
    required_string-agree req req' "query" (a.texts "query" [] (inr (inl refl))) cfg.max_arg_bytes,
    optional_json-agree req req' "input_json" (a.texts "input_json" [] (inr (inr (inl refl))))
        libs.opa_codec.decode_input cfg.max_arg_bytes,
    optional_json-agree req req' "data_json" (a.texts "data_json" [] (inr (inr (inr (inl refl)))))
        libs.opa_codec.decode_data cfg.max_arg_bytes,
    a.texts "rego_version" (codes "v1") (inr (inr (inr (inr (inl refl))))),
    a.flags "trace" false (inl refl),
  )

  evaluate-Agree :
      Agree (declaration authzen_evaluate_tool) req req'
      → handle_evaluate libs cfg entropy req ≡ handle_evaluate libs cfg entropy req'
  unfolding handle_evaluate authzen_evaluate
  evaluate-Agree a = rw (
    read_evaluation_args-agree libs.codec cfg req req' true (a.texts "subject" [] (inl refl))
        (a.texts "action" [] (inr (inl refl))) (a.texts "resource" [] (inr (inr (inl refl))))
        (a.texts "context" [] (inr (inr (inr (inl refl))))),
    a.texts "pdp_url" [] (inr (inr (inr (inr (inl refl))))),
  )

  batch-Agree :
      Agree (declaration authzen_evaluate_batch_tool) req req'
      → handle_batch libs cfg entropy req ≡ handle_batch libs cfg entropy req'
  unfolding handle_batch authzen_evaluate_batch
  batch-Agree a = rw (
    read_evaluation_args-agree libs.codec cfg req req' false (a.texts "subject" [] (inr (inl refl)))
        (a.texts "action" [] (inr (inr (inl refl))))
        (a.texts "resource" [] (inr (inr (inr (inl refl)))))
        (a.texts "context" [] (inr (inr (inr (inr (inl refl)))))),
    fun_ext (λ (defaults : EvaluationRequest).
        read_evaluation_entries-agree libs.codec cfg req req' defaults
          (a.texts "evaluations" [] (inl refl))),
    a.texts "evaluations_semantic" semantic_execute_all (inr (inr (inr (inr (inr (inl refl)))))),
    a.texts "pdp_url" [] (inr (inr (inr (inr (inr (inr (inl refl))))))),
  )

  discover-Agree :
      Agree (declaration authzen_discover_tool) req req'
      → handle_discover libs cfg entropy req ≡ handle_discover libs cfg entropy req'
  unfolding handle_discover authzen_discover
  discover-Agree a = rw (a.texts "pdp_url" [] (inl refl))

-- What a tool does depends on the arguments that it declares alone: on two requests that agree on
-- them, its handler gives the same result or error, and sends the same.
pub handler-Agree :
    {Decl Rest Event : Type 0} (libs : Libraries Decl Rest Event) (cfg : Config) (t : Tool)
    (entropy : Option Bytes) (req req' : Request)
    → Agree (declaration t) req req'
    → handler libs cfg t entropy req ≡ handler libs cfg t entropy req'
handler-Agree libs cfg evaluate_policy_tool entropy req req' a =
    policy-Agree libs cfg req req' entropy a
handler-Agree libs cfg authzen_evaluate_tool entropy req req' a =
    evaluate-Agree libs cfg req req' entropy a
handler-Agree libs cfg authzen_evaluate_batch_tool entropy req req' a =
    batch-Agree libs cfg req req' entropy a
handler-Agree libs cfg authzen_discover_tool entropy req req' a =
    discover-Agree libs cfg req req' entropy a
