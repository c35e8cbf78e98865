-- ===== src/Server/Refusal.antt =====
-- A request that breaks a tool's schema is refused, whatever OPA makes of the policy, and nothing is sent.
use mcp_opa.Base.{
  ◌≡◌, ◌≢◌, ◌∙◌, ap, refl, sym, inl, inr, true, false, not, List, [], ◌∷◌, Option, Bytes, codes,
  String, ℕ, equal, any, arith, Result, ok, err, map_err, refuse_if,
}
use mcp_opa.Base.Results
use mcp_opa.Json.{Value, Decode}
use mcp_opa.Config.Load.{Config}
use mcp_opa.Args.Read.{ArgError, Request, required_string, optional_json, json_object_arg}
use mcp_opa.Pdp.Wire.{EvaluationRequest}
use mcp_opa.Pdp.Exchange.{Exchange, failed, ◌>>=◌, attempt, relabel}
use mcp_opa.Authzen.Codec.{Codec}
use mcp_opa.Authzen.Entities.{RequestError, read_evaluation_args, object_argument}
use mcp_opa.Authzen.Entries.{read_evaluation_entries}
use mcp_opa.Authzen.Handlers.{authzen_evaluate, authzen_evaluate_batch, semantics}
use mcp_opa.Opa.SandboxLaws.{Occurs}
use mcp_opa.Opa.Evaluate.{Engine, OpaError, read_version, read_policy, evaluate_policy}
use mcp_opa.Server.Declaration.{required_of, enums_of}
use mcp_opa.Server.Calls.{
  Failure, policy_failed, Libraries, Tool, evaluate_policy_tool, authzen_evaluate_tool,
  authzen_evaluate_batch_tool, authzen_discover_tool, declaration, handler, handle_policy,
  handle_evaluate, handle_batch,
}

abbrev Fails : {E A : Type 0} → Result E A → Type 0
Fails {E} m = (e : E) × (m ≡ err e)

-- The handler ends with an error, and nothing was sent.
abbrev pub Refuses : {E A : Type 0} → Exchange E A → Type 0
Refuses {E} m = (e : E) × (m ≡ failed e)

Fails-map_err : {E F A : Type 0} (g : E → F) (m : Result E A) → Fails m → Fails (map_err g m)
Fails-map_err g m (e, h) = (g e, rw h)

module _ {E A B : Type 0} where
  Fails-first : (m : Result E A) (f : A → Result E B) → Fails m → Fails (Results.◌>>=◌ m f)
  Fails-first m f (e, h) = (e, rw h)

  Fails-rest :
      (m : Result E A) (f : A → Result E B) → ((a : A) → Fails (f a)) → Fails (Results.◌>>=◌ m f)
  Fails-rest (ok a) f h = h a
  Fails-rest (err e) f h = (e, refl)

  Refuses-first :
      {F : Type 0} (g : E → F) (m : Result E A) (f : A → Exchange F B)
      → Fails m
      → Refuses (attempt g m >>= f)
  Refuses-first g m f (e, h) = (g e, rw h)

  Refuses-rest :
      {F : Type 0} (g : E → F) (m : Result E A) (f : A → Exchange F B)
      → ((a : A) → Refuses (f a))
      → Refuses (attempt g m >>= f)
  Refuses-rest g (ok a) f h = h a
  Refuses-rest g (err e) f h = (g e, refl)

  Refuses-relabel :
      {F : Type 0} (g : E → F) (m : Exchange E A) (f : A → Exchange F B)
      → Refuses m
      → Refuses (relabel g m >>= f)
  Refuses-relabel g m f (e, h) = (g e, rw h)

module _ (req : Request) (name : String) (missing : req.get_string name [] ≡ []) where
  required_string-Fails : (max : ℕ) → Fails (required_string req name max)
  unfolding required_string
  required_string-Fails max = (ArgError.missing name, rw missing)

  json_object_arg-Fails :
      (decode : Decode Value) (max : ℕ) → Fails (json_object_arg decode req name max true)
  unfolding json_object_arg
  json_object_arg-Fails decode max = (ArgError.missing name, rw missing)

module _ (codec : Codec) (cfg : Config) (req : Request) where
  object_argument-Fails :
      (name : String)
      → req.get_string name [] ≡ []
      → Fails (object_argument codec req cfg name true)
  object_argument-Fails name missing =
      Fails-map_err _ (json_object_arg codec.any req name cfg.max_arg_bytes true)
        (json_object_arg-Fails req name missing codec.any cfg.max_arg_bytes)

  read_evaluation_args-Fails :
      (name : String)
      → Occurs name ("subject" ∷ "action" ∷ "resource" ∷ [])
      → req.get_string name [] ≡ []
      → Fails (read_evaluation_args codec req cfg true)
  unfolding read_evaluation_args
  read_evaluation_args-Fails name (inl e) missing =
      search (Fails-first, object_argument-Fails "subject" (rw e at missing))
  read_evaluation_args-Fails name (inr (inl e)) missing =
      search (Fails-first, Fails-rest, object_argument-Fails "action" (rw e at missing))
  read_evaluation_args-Fails name (inr (inr (inl e))) missing =
      search (Fails-first, Fails-rest, object_argument-Fails "resource" (rw e at missing))
  read_evaluation_args-Fails name (inr (inr (inr o))) missing = absurd o

  read_evaluation_entries-Fails :
      (defaults : EvaluationRequest)
      → req.get_string "evaluations" [] ≡ []
      → Fails (read_evaluation_entries codec req cfg defaults)
  unfolding read_evaluation_entries optional_json
  read_evaluation_entries-Fails defaults missing = (RequestError.no_evaluations, rw missing)

module _ {Decl Rest Event : Type 0} (libs : Libraries Decl Rest Event) (cfg : Config)
    (entropy : Option Bytes) (req : Request) where
  -- With any version of OPA the tool's handler ends with the same error, and nothing was sent.
  abbrev pub RefusesUnseen : Tool → Type 0
  RefusesUnseen t =
      (e : Failure) × ((engine : Engine Decl Rest Event)
        → handler (record libs { engine = engine }) cfg t entropy req ≡ failed e)

  unread-RefusesUnseen :
      Fails (read_policy libs.base libs.opa_codec cfg req) → RefusesUnseen evaluate_policy_tool
  unfolding handle_policy evaluate_policy
  unread-RefusesUnseen (e, h) = (policy_failed e, λ engine. rw h refl)

  policy_required :
      (name : String)
      → Occurs name ("rego" ∷ "query" ∷ [])
      → req.get_string name [] ≡ []
      → Fails (read_policy libs.base libs.opa_codec cfg req)
  unfolding read_policy
  policy_required name (inl e) missing =
      let h = required_string-Fails req "rego" (rw e at missing) cfg.max_arg_bytes in
      search (Fails-first, Fails-map_err, h)
  policy_required name (inr (inl e)) missing =
      let h = required_string-Fails req "query" (rw e at missing) cfg.max_arg_bytes in
      search (Fails-first, Fails-rest, Fails-map_err, h)
  policy_required name (inr (inr o)) missing = absurd o

  evaluate_required :
      (name : String)
      → Occurs name ("subject" ∷ "action" ∷ "resource" ∷ [])
      → req.get_string name [] ≡ []
      → Refuses (handle_evaluate libs cfg entropy req)
  unfolding handle_evaluate authzen_evaluate
  evaluate_required name o missing =
      let h = read_evaluation_args-Fails libs.codec cfg req name o missing in
      search (Refuses-relabel, Refuses-first, Refuses-rest, h)

  batch_required :
      req.get_string "evaluations" [] ≡ [] → Refuses (handle_batch libs cfg entropy req)
  unfolding handle_batch authzen_evaluate_batch
  batch_required missing =
      let h = λ (defaults : EvaluationRequest).
        read_evaluation_entries-Fails libs.codec cfg req defaults missing in
      search (Refuses-relabel, Refuses-first, Refuses-rest, h)

  apart_from_opa :
      (t : Tool)
      → ((engine : Engine Decl Rest Event)
          → handler (record libs { engine = engine }) cfg t entropy req
            ≡ handler libs cfg t entropy req)
      → Refuses (handler libs cfg t entropy req)
      → RefusesUnseen t
  apart_from_opa t same (e, h) = (e, λ engine. same engine ∙ h)

  -- A call without an argument that the tool declares as required, or with an empty one, ends with an
  -- error that is the same whatever OPA makes of the policy, and nothing was sent.
  pub required-Refuses :
      (t : Tool) (name : String)
      → Occurs name (required_of (declaration t).options)
      → req.get_string name [] ≡ []
      → RefusesUnseen t
  unfolding handle_evaluate handle_batch
  required-Refuses evaluate_policy_tool name o missing =
      unread-RefusesUnseen (policy_required name o missing)
  required-Refuses authzen_evaluate_tool name o missing =
      apart_from_opa authzen_evaluate_tool (λ engine. refl) (evaluate_required name o missing)
  required-Refuses authzen_evaluate_batch_tool name (inl e) missing =
      apart_from_opa authzen_evaluate_batch_tool (λ engine. refl) (batch_required (rw e at missing))
  required-Refuses authzen_evaluate_batch_tool name (inr o) missing = absurd o
  required-Refuses authzen_discover_tool name o missing = absurd o

  -- The text is none of the values.
  abbrev pub IsForeign : Bytes → List String → Type 0
  IsForeign v values = any (λ value. equal v (codes value)) values ≡ false

  read_version-Fails :
      (v : Bytes) → v ≢ [] → IsForeign v ("v1" ∷ "v0" ∷ []) → Fails (read_version v)
  read_version-Fails v set foreign = (OpaError.bad_version v, ground arith)

  version_foreign :
      (v : Bytes)
      → req.get_string "rego_version" (codes "v1") ≡ v
      → v ≢ []
      → IsForeign v ("v1" ∷ "v0" ∷ [])
      → Fails (read_policy libs.base libs.opa_codec cfg req)
  unfolding read_policy
  version_foreign v given set foreign =
      let h : Fails (read_version (req.get_string "rego_version" (codes "v1"))) =
        rw given (read_version-Fails v set foreign) in
      search (Fails-first, Fails-rest, h)

  semantic_foreign :
      (v : Bytes)
      → req.get_string "evaluations_semantic" (codes "execute_all") ≡ v
      → IsForeign v ("execute_all" ∷ "deny_on_first_deny" ∷ "permit_on_first_permit" ∷ [])
      → Refuses (handle_batch libs cfg entropy req)
  unfolding handle_batch authzen_evaluate_batch
  semantic_foreign v given foreign =
      let s = req.get_string "evaluations_semantic" (codes "execute_all") in
      let h : Fails (refuse_if (not (any (equal s) semantics)) s) = rw given (v, ground arith) in
      search (Refuses-relabel, Refuses-first, Refuses-rest, h)

  -- A call whose value for an argument is not empty and none of those that the tool declares for it
  -- ends with an error that is the same whatever OPA makes of the policy, and nothing was sent.
  pub foreign-Refuses :
      (t : Tool) (name : String) (values : List String) (v : Bytes)
      → Occurs (name, values) (enums_of (declaration t).options)
      → ((missing : Bytes) → req.get_string name missing ≡ v)
      → v ≢ []
      → IsForeign v values
      → RefusesUnseen t
  unfolding handle_batch
  foreign-Refuses evaluate_policy_tool name values v (inl e) given set foreign =
      unread-RefusesUnseen (
        version_foreign v
          (ap (λ (p : String × List String). req.get_string p.0 (codes "v1")) (sym e)
            ∙ given (codes "v1"))
          set
          (ap (λ (p : String × List String). any (λ value. equal v (codes value)) p.1) (sym e)
            ∙ foreign))
  foreign-Refuses evaluate_policy_tool name values v (inr o) given set foreign = absurd o
  foreign-Refuses authzen_evaluate_tool name values v o given set foreign = absurd o
  foreign-Refuses authzen_evaluate_batch_tool name values v (inl e) given set foreign =
      apart_from_opa authzen_evaluate_batch_tool (λ engine. refl)
        (semantic_foreign v
          (ap (λ (p : String × List String). req.get_string p.0 (codes "execute_all")) (sym e)
            ∙ given (codes "execute_all"))
          (ap (λ (p : String × List String). any (λ value. equal v (codes value)) p.1) (sym e)
            ∙ foreign))
  foreign-Refuses authzen_evaluate_batch_tool name values v (inr o) given set foreign = absurd o
  foreign-Refuses authzen_discover_tool name values v o given set foreign = absurd o
