-- ===== src/Authzen/BatchLaws.antt =====
-- authzen_evaluate_batch: the decisions that are reported are the decision point's, at their places.
use mcp_opa.Base.{
  ℕ, ◌≡◌, ◌≤◌, inl, inr, ap, sym, ◌∙◌, subst, Bool, true, false, not, List, [], Option, some, Bytes,
  arith, ok, refuse_if, Result-cases, Option-cases, Bool-cases, length, ltb, ltb→le, equal, any,
  Option-cases,
}
use mcp_opa.Json.{RawMessage}
use mcp_opa.Config.Load.{Config}
use mcp_opa.Args.Read.{Request}
use mcp_opa.Pdp.Wire.{
  EvaluationRequest, EvaluationResponse, EvaluationsResponse, evaluations_members,
  semantic_execute_all,
}
use mcp_opa.Pdp.Url.{UrlPackage}
use mcp_opa.Pdp.Exchange.{
  attempt, relabel, Network, answer, answer->>=-eq-ok, answer-attempt, answer-relabel-eq-ok,
}
use mcp_opa.Pdp.Client.{post_json, post_request, new_request_id}
use mcp_opa.Pdp.Reply.{Obtains}
use mcp_opa.Pdp.Calls.{post_json_sound}
use mcp_opa.Authzen.Codec.{encode_batch, Codec, BatchDecision, BatchOutput}
use mcp_opa.Authzen.Entities.{read_evaluation_args}
use mcp_opa.Authzen.Entries.{read_evaluation_entries}
use mcp_opa.Authzen.EntryLaws.{ReadsEntries, read_evaluation_entries_iff}
use mcp_opa.Authzen.Handlers.{
  pdp, bad_request, bad_semantic, Structured, structured_result, url_step, batch_endpoint,
  batch_body, semantics, number_decisions, report_batch, authzen_evaluate_batch,
}
use mcp_opa.Authzen.EvaluateLaws.{structured_result_sound}
use mcp_opa.Authzen.Numbering.{Numbered, number_decisions-Numbered}

-- What is reported of a response to a batch.
pub record ReportsBatch (codec : Codec) (endpoint : Bytes) (sent : ℕ) (semantic id : Bytes)
    (es : List EvaluationResponse) (out : Structured BatchOutput) : Type 0 where
  pub not_more : length es ≤ sent
  pub numbered : Numbered 0 es out.value.decisions
  pub truncated_is : out.value.truncated ≡ ltb (length out.value.decisions) sent
  pub semantic_is : out.value.semantic ≡ semantic
  pub url_is : out.value.pdp_url ≡ endpoint
  pub id_is : out.value.request_id ≡ id
  pub text_is : encode_batch codec out.value ≡ ok out.text

module _ (codec : Codec) (net : Network) (endpoint : Bytes) (sent : ℕ) (semantic id : Bytes) where
  abbrev pub batch_output : List BatchDecision → BatchOutput
  batch_output ds = record {
    decisions = ds;
    semantic = semantic;
    truncated = ltb (length ds) sent;
    pdp_url = endpoint;
    request_id = id;
  }

  pub report_batch_numbered :
      (decoded : EvaluationsResponse) (es : List EvaluationResponse) (ds : List BatchDecision)
      → decoded.evaluations ≡ some es
      → ltb sent (length es) ≡ false
      → number_decisions 0 es ≡ ok ds
      → report_batch codec endpoint sent semantic (id, decoded)
        ≡ structured_result (encode_batch codec) (batch_output ds)
  unfolding report_batch
  report_batch_numbered decoded es ds h fits n = ground (arith, h, fits, n)

  report_batch_sound :
      (decoded : EvaluationsResponse) {out : Structured BatchOutput}
      → answer net (report_batch codec endpoint sent semantic (id, decoded)) ≡ ok out
      → (es : List EvaluationResponse) × (decoded.evaluations ≡ some es)
        × ReportsBatch codec endpoint sent semantic id es out
  report_batch_sound decoded {out} h = elim (Option-cases decoded.evaluations) [
    | inl missing ↦ absurd (unfold report_batch answer in ground (arith, missing))
    | inr (es, found) ↦ elim (Bool-cases (ltb sent (length es))) [
      | inl more ↦ absurd (unfold report_batch answer in ground (arith, found, more))
      | inr fits ↦ elim (Result-cases (number_decisions 0 es)) [
        | inl (i, bad) ↦ absurd (unfold report_batch answer in ground (arith, found, fits, bad))
        | inr (ds, good) ↦
            let (value, text) =
              structured_result_sound (encode_batch codec) net (batch_output ds) {out = out}
                (ap (answer net) (sym (report_batch_numbered decoded es ds found fits good)) ∙ h) in
            (
              es,
              found,
              record {
                not_more = ltb→le sent (length es) fits;
                numbered =
                    subst (λ (v : BatchOutput). Numbered 0 es v.decisions) (sym value)
                      (number_decisions-Numbered 0 es ds good);
                truncated_is =
                    ap (λ (v : BatchOutput). v.truncated) value
                    ∙ ap (λ (v : BatchOutput). ltb (length v.decisions) sent) (sym value);
                semantic_is = ap (λ (v : BatchOutput). v.semantic) value;
                url_is = ap (λ (v : BatchOutput). v.pdp_url) value;
                id_is = ap (λ (v : BatchOutput). v.request_id) value;
                text_is = ap (encode_batch codec) value ∙ text;
              },
            )
      ]
    ]
  ]

-- The semantic that the arguments ask for.
abbrev pub asked_semantic : Request → Bytes
asked_semantic req = req.get_string "evaluations_semantic" semantic_execute_all

-- A batch that is answered.
pub record IsBatchDecided (urls : UrlPackage) (codec : Codec) (cfg : Config)
    (entropy : Option Bytes) (req : Request) (net : Network) (out : Structured BatchOutput)
    : Type 0 where
  pub endpoint : Bytes
  pub resolved : batch_endpoint urls cfg.pdp_url (req.get_string "pdp_url" []) ≡ ok endpoint
  pub defaults : EvaluationRequest
  pub reads : read_evaluation_args codec req cfg false ≡ ok defaults
  pub entries : List RawMessage
  pub reads_entries : ReadsEntries codec req cfg defaults entries
  pub known_semantic : any (equal (asked_semantic req)) semantics ≡ true
  pub encoded : Bytes
  pub encodes :
      codec.encode (evaluations_members (batch_body defaults entries (asked_semantic req)))
      ≡ ok encoded
  pub decoded : EvaluationsResponse
  pub obtains :
      Obtains urls codec.responses net cfg.pdp_max_bytes
        (post_request cfg (new_request_id entropy) endpoint encoded)
        decoded
  pub responses : List EvaluationResponse
  pub answers : decoded.evaluations ≡ some responses
  pub reports :
      ReportsBatch codec endpoint
        (length entries)
        (asked_semantic req)
        (new_request_id entropy)
        responses
        out

refuse_sound : (b : Bool) (s : Bytes) {u : Unit {0}} → refuse_if (not b) s ≡ ok u → b ≡ true
refuse_sound b s h = ground arith

module _ (urls : UrlPackage) (codec : Codec) (cfg : Config) (entropy : Option Bytes) (req : Request)
    (net : Network) where
  -- A batch is reported only if the endpoint is accepted, the defaults and the entries can be
  -- evaluated, the semantic is one of the three, and the reply to the one request is a 200 whose
  -- body holds at most as many decisions as there are entries; each is then reported at its place.
  pub authzen_evaluate_batch-IsBatchDecided :
      (out : Structured BatchOutput)
      → answer net (authzen_evaluate_batch urls codec cfg entropy req) ≡ ok out
      → IsBatchDecided urls codec cfg entropy req net out
  unfolding authzen_evaluate_batch
  authzen_evaluate_batch-IsBatchDecided out h =
      let semantic = req.get_string "evaluations_semantic" semantic_execute_all in
      let (endpoint, h0, h1) =
        answer->>=-eq-ok net
          (url_step (batch_endpoint urls cfg.pdp_url (req.get_string "pdp_url" []))) _ h in
      let (defaults, h2, h3) =
        answer->>=-eq-ok net (attempt bad_request (read_evaluation_args codec req cfg false)) _
          h1 in
      let (entries, h4, h5) =
        answer->>=-eq-ok net (attempt bad_request (read_evaluation_entries codec req cfg defaults))
          _ h3 in
      let (u, h6, h7) =
        answer->>=-eq-ok net
          (attempt bad_semantic (refuse_if (not (any (equal semantic) semantics)) semantic)) _ h5 in
      let members = evaluations_members (batch_body defaults entries semantic) in
      let (reply, h8, h9) =
        answer->>=-eq-ok net
          (relabel pdp (post_json urls codec.encode codec.responses cfg entropy endpoint members)) _
          h7 in
      let (encoded, good, id, o) =
        post_json_sound urls codec.encode codec.responses cfg entropy endpoint members net reply.0
          reply.1
          (answer-relabel-eq-ok net pdp
            (post_json urls codec.encode codec.responses cfg entropy endpoint members) h8) in
      let (es, found, reports) =
        report_batch_sound codec net endpoint (length entries) semantic reply.0 reply.1 {out = out}
          h9 in
      record {
        endpoint = endpoint;
        resolved =
            answer-attempt net _ (batch_endpoint urls cfg.pdp_url (req.get_string "pdp_url" [])) h0;
        defaults = defaults;
        reads = answer-attempt net bad_request (read_evaluation_args codec req cfg false) h2;
        entries = entries;
        reads_entries =
            (read_evaluation_entries_iff codec req cfg defaults entries).0
              (answer-attempt net bad_request (read_evaluation_entries codec req cfg defaults) h4);
        known_semantic = refuse_sound (any (equal semantic) semantics) semantic (
            answer-attempt net bad_semantic
              (refuse_if (not (any (equal semantic) semantics)) semantic) h6);
        encoded = encoded;
        encodes = good;
        decoded = reply.1;
        obtains = o;
        responses = es;
        answers = found;
        reports =
            subst (λ i. ReportsBatch codec endpoint (length entries) semantic i es out) id reports;
      }
