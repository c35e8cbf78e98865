-- ===== src/Authzen/DecisionPoint.antt =====
-- A decision point that decides by a policy, and what the tools report of it: the abstract service
-- that authzen_evaluate and authzen_evaluate_batch give access to.
use mcp_opa.Base.{
  ℕ, ◌≡◌, ◌≤◌, refl, Bool, true, List, [], ◌∷◌, Option, some, Bytes, codes, ◌⊎◌, inl, inr, ok,
  length, All,
}
use mcp_opa.Json.{RawMessage, Value, object}
use mcp_opa.Args.Laws.{AcceptsObject}
use mcp_opa.Config.Load.{Config}
use mcp_opa.Args.Read.{Request}
use mcp_opa.Pdp.Wire.{
  EvaluationRequest, EvaluationResponse, EvaluationsResponse, evaluation_members,
  evaluations_members, EvaluationsRequest,
}
use mcp_opa.Pdp.Url.{UrlPackage, resolve_endpoint}
use mcp_opa.Pdp.Endpoint.{resolve_endpoint_iff}
use mcp_opa.Pdp.Exchange.{HttpRequest, Network, answer}
use mcp_opa.Pdp.Client.{new_request_id, post_request}
use mcp_opa.Pdp.Reply.{Delivers}
use mcp_opa.Authzen.Codec.{encode_batch, encode_evaluate, Codec, EvaluateOutput, BatchOutput}
use mcp_opa.Authzen.Entities.{Entity, entity_of, read_evaluation_args}
use mcp_opa.Authzen.EntityLaws.{IsComplete}
use mcp_opa.Authzen.RequestLaws.{read_evaluation_args_sound, ReadsArguments-IsComplete}
use mcp_opa.Authzen.Entries.{effective}
use mcp_opa.Authzen.EntryLaws.{IsEvaluable}
use mcp_opa.Authzen.Handlers.{Structured, evaluate_output, authzen_evaluate}
use mcp_opa.Authzen.EvaluateLaws.{authzen_evaluate_iff}

-- The responses to the entries, one by one: the policy's decision on the entry over the defaults.
abbrev pub Answers :
    Codec
    → (EvaluationRequest → Bool)
    → EvaluationRequest
    → List RawMessage
    → List EvaluationResponse
    → Type 0
Answers codec policy defaults [] [] = Unit
Answers codec policy defaults [] (e ∷ es) = ⊥
Answers codec policy defaults (raw ∷ raws) [] = ⊥
Answers codec policy defaults (raw ∷ raws) (e ∷ es) =
    ((own : EvaluationRequest)
      → codec.request raw ≡ ok own
      → e.decision ≡ some (policy (effective own defaults)))
    × Answers codec policy defaults raws es

-- A text that encoding/json decodes, and a raw message that is absent or one.
abbrev pub IsJson : Codec → RawMessage → Type 0
IsJson codec raw = (v : Value) × (codec.any raw ≡ ok v)

abbrev pub AbsentOrJson : Codec → RawMessage → Type 0
AbsentOrJson codec raw = (raw ≡ []) ⊎ IsJson codec raw

-- The documented behaviour of encoding/json: raw messages that are decoded are JSON, and what holds
-- no other raw messages than those that are absent or JSON can be encoded.
pub record JsonLaws (codec : Codec) : Type 0 where
  pub elements :
      (text : Bytes) (rs : List RawMessage)
      → codec.array text ≡ ok (some rs)
      → All (IsJson codec) rs
  pub context_of :
      (text : Bytes) (r : EvaluationResponse)
      → codec.response text ≡ ok r
      → AbsentOrJson codec r.context
  pub contexts_of :
      (text : Bytes) (r : EvaluationsResponse) (es : List EvaluationResponse)
      → codec.responses text ≡ ok r
      → r.evaluations ≡ some es
      → All (λ e. AbsentOrJson codec e.context) es
  pub encodes_one :
      (r : EvaluationRequest)
      → AbsentOrJson codec r.subject
      → AbsentOrJson codec r.action
      → AbsentOrJson codec r.resource
      → AbsentOrJson codec r.context
      → (text : Bytes) × (codec.encode (evaluation_members r) ≡ ok text)
  pub encodes_each :
      (r : EvaluationsRequest)
      → AbsentOrJson codec r.subject
      → AbsentOrJson codec r.action
      → AbsentOrJson codec r.resource
      → AbsentOrJson codec r.context
      → All (IsJson codec) r.evaluations
      → (text : Bytes) × (codec.encode (evaluations_members r) ≡ ok text)
  pub encodes_decision :
      (v : EvaluateOutput)
      → AbsentOrJson codec v.context
      → (text : Bytes) × (encode_evaluate codec v ≡ ok text)
  pub encodes_decisions :
      (v : BatchOutput)
      → All (λ d. AbsentOrJson codec d.context) v.decisions
      → (text : Bytes) × (encode_batch codec v ≡ ok text)

module _ (codec : Codec) {sent : Bytes} {max : ℕ} {required : Bool} {raw : RawMessage} where
  pub accepted-AbsentOrJson : AcceptsObject codec.any sent max required raw → AbsentOrJson codec raw
  accepted-AbsentOrJson (same, inl (absent, optional)) = inl absent
  accepted-AbsentOrJson (same, inr (present, fits, (fields, decodes))) =
      inr (object fields, decodes)

-- What a batch asks for where an entry says nothing.
abbrev pub defaults_of : EvaluationsRequest → EvaluationRequest
defaults_of r = record {
  subject = r.subject;
  action = r.action;
  resource = r.resource;
  context = r.context;
}

-- A decision point as AuthZEN describes it, with its two endpoints. A request with complete entities
-- that is posted to the one gets the policy's decision; and a batch of which all is to be executed,
-- posted to the other, the decision on each entry over the defaults.
pub record IsDecisionPoint (codec : Codec) (net : Network) (limit : ℕ)
    (evaluation evaluations : Bytes) (policy : EvaluationRequest → Bool) : Type 0 where
  pub decides_one :
      (sent : HttpRequest) (r : EvaluationRequest)
      → sent.method ≡ "POST"
      → sent.url ≡ evaluation
      → ((e : Entity) → IsComplete codec (entity_of r e) e)
      → codec.encode (evaluation_members r) ≡ ok sent.body
      → (raw : Bytes) × (decoded : EvaluationResponse) × Delivers limit raw (net sent)
        × (codec.response raw ≡ ok decoded)
        × (decoded.decision ≡ some (policy r))
  pub decides_each :
      (sent : HttpRequest) (r : EvaluationsRequest)
      → sent.method ≡ "POST"
      → sent.url ≡ evaluations
      → All (IsEvaluable codec (defaults_of r)) r.evaluations
      → length r.evaluations ≤ 100
      → r.options ≡ some (record { semantic = codes "execute_all" })
      → codec.encode (evaluations_members r) ≡ ok sent.body
      → (raw : Bytes) × (decoded : EvaluationsResponse) × (es : List EvaluationResponse) × Delivers
          limit raw
          (net sent)
        × (codec.responses raw ≡ ok decoded)
        × (decoded.evaluations ≡ some es)
        × Answers codec policy (defaults_of r) r.evaluations es

module _ (urls : UrlPackage) (codec : Codec) (cfg : Config) (entropy : Option Bytes) (net : Network)
    (policy : EvaluationRequest → Bool) (evaluation evaluations : Bytes)
    (point : IsDecisionPoint codec net cfg.pdp_max_bytes evaluation evaluations policy)
    (json : JsonLaws codec) where
  -- With a decision point behind the network that decides by a policy, a call for its endpoint with
  -- complete arguments ends with a result, and that is the policy's decision on them.
  pub authzen_evaluate-decides :
      (req : Request) (r : EvaluationRequest)
      → resolve_endpoint urls cfg.pdp_url (req.get_string "pdp_url" []) ≡ ok evaluation
      → read_evaluation_args codec req cfg true ≡ ok r
      → (out : Structured EvaluateOutput) × (answer net
            (authzen_evaluate urls codec cfg entropy req)
          ≡ ok out)
        × (out.value.decision ≡ policy r)
  authzen_evaluate-decides req r resolved reads =
      let endpoint = evaluation in
      let (same, full, (u, accepted)) =
        (resolve_endpoint_iff urls cfg.pdp_url (req.get_string "pdp_url" []) endpoint).0 resolved in
      let read = read_evaluation_args_sound codec req cfg true r reads in
      let (encoded, encodes) =
        json.encodes_one r (accepted-AbsentOrJson codec read.subject_is)
          (accepted-AbsentOrJson codec read.action_is)
          (accepted-AbsentOrJson codec read.resource_is)
          (accepted-AbsentOrJson codec read.context_is) in
      let id = new_request_id entropy in
      let (raw, decoded, delivers, decodes, decides) =
        point.decides_one (post_request cfg id endpoint encoded) r refl refl
          (ReadsArguments-IsComplete read) encodes in
      let value : EvaluateOutput = evaluate_output endpoint id (policy r) decoded.context in
      let (text, text_is) = json.encodes_decision value (json.context_of raw decoded decodes) in
      let out : Structured EvaluateOutput = record { value = value; text = text } in
      (
        out,
        (authzen_evaluate_iff urls codec cfg entropy req net out).1 (record {
          endpoint = endpoint;
          resolved = resolved;
          body = r;
          reads = reads;
          encoded = encoded;
          encodes = encodes;
          decoded = decoded;
          obtains = record {
            url = u;
            parses = accepted.0;
            raw = raw;
            delivers = delivers;
            decodes = decodes;
          };
          decides = decides;
          context_is = refl;
          url_is = refl;
          id_is = refl;
          text_is = text_is;
        }),
        refl,
      )
