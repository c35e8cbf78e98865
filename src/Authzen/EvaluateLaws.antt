-- ===== src/Authzen/EvaluateLaws.antt =====
-- authzen_evaluate: a decision is reported exactly when the decision point gave it.
use mcp_opa.Base.{
  ◌≡◌, ◌↔◌, inl, inr, refl, ap, sym, ◌∙◌, Bool, true, [], Option, some, Bytes, arith, ok, map_err,
  Result-cases, Option-cases,
}
use mcp_opa.Json.{Encode}
use mcp_opa.Config.Load.{Config}
use mcp_opa.Args.Read.{Request}
use mcp_opa.Pdp.Wire.{EvaluationRequest, EvaluationResponse, evaluation_members}
use mcp_opa.Pdp.Url.{UrlPackage, resolve_endpoint}
use mcp_opa.Pdp.Exchange.{
  done, attempt, relabel, Network, answer, requests, answer->>=-eq-ok, answer->>=_of_ok,
  answer-attempt, answer-relabel-eq-ok, answer-relabel, attempt->>=_of_ok,
}
use mcp_opa.Pdp.Client.{post_json, post_request, new_request_id}
use mcp_opa.Pdp.Reply.{Obtains}
use mcp_opa.Pdp.Calls.{post_json_sound, post_json_complete}
use mcp_opa.Authzen.Codec.{encode_evaluate, Codec, EvaluateOutput}
use mcp_opa.Authzen.Entities.{read_evaluation_args}
use mcp_opa.Authzen.Handlers.{
  pdp, bad_request, Structured, structured_result, url_step, evaluate_output, report_evaluation,
  authzen_evaluate,
}

module _ {A : Type 0} (encode : Encode A) (net : Network) where
  pub structured_result_sound :
      (v : A) {out : Structured A}
      → answer net (structured_result encode v) ≡ ok out
      → (out.value ≡ v) × (encode v ≡ ok out.text)
  unfolding structured_result answer
  structured_result_sound v {out} h = elim (Result-cases (encode v)) [
    | inl (e, bad) ↦ absurd (ground (arith, bad))
    | inr (text, good) ↦ (ground (arith, good), ground (arith, good))
  ]

  pub structured_result_complete :
      (v : A) (text : Bytes)
      → encode v ≡ ok text
      → structured_result encode v ≡ done (record { value = v; text = text })
  unfolding structured_result
  structured_result_complete v text h = rw (h, structured_result)

  pub requests-structured_result : (v : A) → requests net (structured_result encode v) ≡ []
  unfolding structured_result requests
  requests-structured_result v = ground arith

-- The decision of an answered call: the endpoint is accepted, the arguments are complete, and the
-- reply of the decision point to the one request holds the decision and the context.
pub record IsDecided (urls : UrlPackage) (codec : Codec) (cfg : Config) (entropy : Option Bytes)
    (req : Request) (net : Network) (out : Structured EvaluateOutput) : Type 0 where
  pub endpoint : Bytes
  pub resolved : resolve_endpoint urls cfg.pdp_url (req.get_string "pdp_url" []) ≡ ok endpoint
  pub body : EvaluationRequest
  pub reads : read_evaluation_args codec req cfg true ≡ ok body
  pub encoded : Bytes
  pub encodes : codec.encode (evaluation_members body) ≡ ok encoded
  pub decoded : EvaluationResponse
  pub obtains :
      Obtains urls codec.response net cfg.pdp_max_bytes
        (post_request cfg (new_request_id entropy) endpoint encoded)
        decoded
  pub decides : decoded.decision ≡ some out.value.decision
  pub context_is : out.value.context ≡ decoded.context
  pub url_is : out.value.pdp_url ≡ endpoint
  pub id_is : out.value.request_id ≡ new_request_id entropy
  pub text_is : encode_evaluate codec out.value ≡ ok out.text

module _ (codec : Codec) (net : Network) (endpoint id : Bytes) (decoded : EvaluationResponse) where
  report_evaluation_decided :
      (d : Bool)
      → decoded.decision ≡ some d
      → report_evaluation codec endpoint (id, decoded)
        ≡ structured_result (encode_evaluate codec) (evaluate_output endpoint id d decoded.context)
  unfolding report_evaluation
  report_evaluation_decided d h = rw (h, report_evaluation)

  report_evaluation_sound :
      {out : Structured EvaluateOutput}
      → answer net (report_evaluation codec endpoint (id, decoded)) ≡ ok out
      → (d : Bool) × (decoded.decision ≡ some d)
        × (out.value ≡ evaluate_output endpoint id d decoded.context)
        × (encode_evaluate codec out.value ≡ ok out.text)
  report_evaluation_sound {out} h = elim (Option-cases decoded.decision) [
    | inl missing ↦ absurd (unfold report_evaluation answer in ground (arith, missing))
    | inr (d, found) ↦
        let v : EvaluateOutput = evaluate_output endpoint id d decoded.context in
        let (value, text) =
          structured_result_sound (encode_evaluate codec) net v {out = out}
            (ap (answer net) (sym (report_evaluation_decided d found)) ∙ h) in
        (d, found, value, ap (encode_evaluate codec) value ∙ text)
  ]

  pub requests-report_evaluation :
      requests net (report_evaluation codec endpoint (id, decoded)) ≡ []
  requests-report_evaluation = elim (Option-cases decoded.decision) [
    | inl missing ↦ unfold report_evaluation requests in ground (arith, missing)
    | inr (d, found) ↦
        ap (requests net) (report_evaluation_decided d found)
        ∙ requests-structured_result (encode_evaluate codec) net
            (evaluate_output endpoint id d decoded.context)
  ]

module _ (urls : UrlPackage) (codec : Codec) (cfg : Config) (entropy : Option Bytes) (req : Request)
    (net : Network) where
  evaluate_sound :
      (out : Structured EvaluateOutput)
      → answer net (authzen_evaluate urls codec cfg entropy req) ≡ ok out
      → IsDecided urls codec cfg entropy req net out
  unfolding authzen_evaluate
  evaluate_sound out h =
      let (endpoint, h0, h1) =
        answer->>=-eq-ok net
          (url_step (resolve_endpoint urls cfg.pdp_url (req.get_string "pdp_url" []))) _ h in
      let (body, h2, h3) =
        answer->>=-eq-ok net (attempt bad_request (read_evaluation_args codec req cfg true)) _ h1 in
      let (reply, h4, h5) =
        answer->>=-eq-ok net
          (relabel pdp (
            post_json urls codec.encode codec.response cfg entropy endpoint
              (evaluation_members body)))
          _ h3 in
      let (encoded, good, id, o) =
        post_json_sound urls codec.encode codec.response cfg entropy endpoint
          (evaluation_members body) net reply.0 reply.1
          (answer-relabel-eq-ok net pdp
            (post_json urls codec.encode codec.response cfg entropy endpoint
              (evaluation_members body))
            h4) in
      let (d, found, value, text) =
        report_evaluation_sound codec net endpoint reply.0 reply.1 {out = out} h5 in
      record {
        endpoint = endpoint;
        resolved =
            answer-attempt net _ (resolve_endpoint urls cfg.pdp_url (req.get_string "pdp_url" []))
              h0;
        body = body;
        reads = answer-attempt net bad_request (read_evaluation_args codec req cfg true) h2;
        encoded = encoded;
        encodes = good;
        decoded = reply.1;
        obtains = o;
        decides = found ∙ ap (λ (v : EvaluateOutput). some v.decision) (sym value);
        context_is = ap (λ (v : EvaluateOutput). v.context) value;
        url_is = ap (λ (v : EvaluateOutput). v.pdp_url) value;
        id_is = ap (λ (v : EvaluateOutput). v.request_id) value ∙ id;
        text_is = text;
      }

  evaluate_complete :
      (out : Structured EvaluateOutput)
      → IsDecided urls codec cfg entropy req net out
      → answer net (authzen_evaluate urls codec cfg entropy req) ≡ ok out
  unfolding authzen_evaluate
  evaluate_complete out d =
      let id = new_request_id entropy in
      let members = evaluation_members d.body in
      let value : evaluate_output d.endpoint id out.value.decision d.decoded.context ≡ out.value =
        ground (arith, d.context_is, d.url_is, d.id_is) in
      ap (answer net) (attempt->>=_of_ok _ _ d.resolved)
      ∙ ap (answer net) (attempt->>=_of_ok _ _ d.reads)
      ∙ answer->>=_of_ok net
          (relabel pdp (post_json urls codec.encode codec.response cfg entropy d.endpoint members))
          _ (id, d.decoded)
          (answer-relabel net pdp
              (post_json urls codec.encode codec.response cfg entropy d.endpoint members)
            ∙ ap (map_err pdp) (
                post_json_complete urls codec.encode codec.response cfg entropy d.endpoint members
                  net d.encoded d.decoded d.encodes d.obtains))
      ∙ ap (answer net)
          (report_evaluation_decided codec net d.endpoint id d.decoded out.value.decision d.decides)
      ∙ ap (λ v. answer net (structured_result (encode_evaluate codec) v)) value
      ∙ ap (answer net)
          (structured_result_complete (encode_evaluate codec) net out.value out.text d.text_is)
      ∙ unfold answer in refl

-- authzen_evaluate gives a result exactly when the endpoint is accepted, the arguments are
-- complete, and the reply to its one request is a 200 with a body that holds a decision; the result
-- is that decision, with the context of the reply, the endpoint and the request id.
pub authzen_evaluate_iff :
    (urls : UrlPackage) (codec : Codec) (cfg : Config) (entropy : Option Bytes) (req : Request)
    (net : Network) (out : Structured EvaluateOutput)
    → (answer net (authzen_evaluate urls codec cfg entropy req) ≡ ok out)
      ↔ IsDecided urls codec cfg entropy req net out
authzen_evaluate_iff urls codec cfg entropy req net out = (
  evaluate_sound urls codec cfg entropy req net out,
  evaluate_complete urls codec cfg entropy req net out,
)
