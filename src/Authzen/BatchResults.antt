-- ===== src/Authzen/BatchResults.antt =====
-- authzen_evaluate_batch: a batch is reported exactly when the decision point decided it.
use mcp_opa.Base.{
  ℕ, ◌+◌, ◌≡◌, ◌↔◌, refl, ap, ◌∙◌, Bool, true, not, List, [], ◌∷◌, Option, some, arith, Bytes, ok,
  map_err, length, not-lt→ltb, refuse_if,
}
use mcp_opa.Config.Load.{Config}
use mcp_opa.Args.Read.{Request}
use mcp_opa.Pdp.Wire.{EvaluationResponse, EvaluationsResponse, evaluations_members}
use mcp_opa.Pdp.Url.{UrlPackage}
use mcp_opa.Pdp.Exchange.{
  Network, answer, relabel, answer->>=_of_ok, answer-relabel, attempt->>=_of_ok,
}
use mcp_opa.Pdp.Client.{post_json, new_request_id}
use mcp_opa.Pdp.Calls.{post_json_complete}
use mcp_opa.Authzen.Codec.{encode_batch, Codec, BatchDecision, BatchOutput}
use mcp_opa.Authzen.EntryLaws.{read_evaluation_entries_iff}
use mcp_opa.Authzen.Handlers.{
  Structured, number_decisions, report_batch, structured_result, batch_body, pdp,
  authzen_evaluate_batch,
}
use mcp_opa.Authzen.EvaluateLaws.{structured_result_complete}
use mcp_opa.Authzen.Numbering.{Numbered}
use mcp_opa.Authzen.BatchLaws.{
  ReportsBatch, IsBatchDecided, asked_semantic, batch_output, report_batch_numbered,
  authzen_evaluate_batch-IsBatchDecided,
}

Numbered-number_decisions :
    (i : ℕ) (es : List EvaluationResponse) (ds : List BatchDecision)
    → Numbered i es ds
    → number_decisions i es ≡ ok ds
unfolding number_decisions
Numbered-number_decisions i [] [] n = refl
Numbered-number_decisions i [] (d ∷ ds) n = absurd n
Numbered-number_decisions i (e ∷ es) [] n = absurd n
Numbered-number_decisions i (e ∷ es) (d ∷ ds) (decides, index, context, n) =
    ground (arith, decides, index, context, Numbered-number_decisions (i + 1) es ds n)

module _ (codec : Codec) (net : Network) (endpoint : Bytes) (sent : ℕ) (semantic id : Bytes) where
  report_batch_complete :
      (decoded : EvaluationsResponse) (es : List EvaluationResponse) (out : Structured BatchOutput)
      → decoded.evaluations ≡ some es
      → ReportsBatch codec endpoint sent semantic id es out
      → answer net (report_batch codec endpoint sent semantic (id, decoded)) ≡ ok out
  report_batch_complete decoded es out found r =
      let same : batch_output codec net endpoint sent semantic id out.value.decisions ≡ out.value =
        ground (arith, r.truncated_is, r.semantic_is, r.url_is, r.id_is) in
      ap (answer net) (
        report_batch_numbered codec net endpoint sent semantic id decoded es out.value.decisions
          found (not-lt→ltb sent (length es) r.not_more)
          (Numbered-number_decisions 0 es out.value.decisions r.numbered))
      ∙ ap (λ v. answer net (structured_result (encode_batch codec) v)) same
      ∙ ap (answer net)
          (structured_result_complete (encode_batch codec) net out.value out.text r.text_is)
      ∙ unfold answer in refl

refuse_complete : (b : Bool) (s : Bytes) → b ≡ true → refuse_if (not b) s ≡ ok tt
refuse_complete b s h = ground arith

module _ (urls : UrlPackage) (codec : Codec) (cfg : Config) (entropy : Option Bytes) (req : Request)
    (net : Network) where
  batch_complete :
      (out : Structured BatchOutput)
      → IsBatchDecided urls codec cfg entropy req net out
      → answer net (authzen_evaluate_batch urls codec cfg entropy req) ≡ ok out
  unfolding authzen_evaluate_batch
  batch_complete out d =
      let id = new_request_id entropy in
      let members = evaluations_members (batch_body d.defaults d.entries (asked_semantic req)) in
      let post = post_json urls codec.encode codec.responses cfg entropy d.endpoint members in
      ap (answer net) (attempt->>=_of_ok _ _ d.resolved)
      ∙ ap (answer net) (attempt->>=_of_ok _ _ d.reads)
      ∙ ap (answer net) (
          attempt->>=_of_ok _ _
            ((read_evaluation_entries_iff codec req cfg d.defaults d.entries).1 d.reads_entries))
      ∙ ap (answer net) (attempt->>=_of_ok _ _ (refuse_complete _ _ d.known_semantic))
      ∙ answer->>=_of_ok net (relabel pdp post) _ (id, d.decoded)
          (answer-relabel net pdp post
            ∙ ap (map_err pdp) (
                post_json_complete urls codec.encode codec.responses cfg entropy d.endpoint members
                  net d.encoded d.decoded d.encodes d.obtains))
      ∙ report_batch_complete codec net d.endpoint (length d.entries) (asked_semantic req) id
          d.decoded d.responses out d.answers d.reports

-- authzen_evaluate_batch gives a result exactly when the endpoint is accepted, the defaults and the
-- entries can be evaluated, the semantic is one of the three, and the reply to its one request is a
-- 200 whose body holds at most as many responses as there are entries, each with a decision; the
-- result is these decisions, each with its place as index and its context, the semantic, whether
-- there are fewer decisions than entries, the endpoint and the request id.
pub authzen_evaluate_batch_iff :
    (urls : UrlPackage) (codec : Codec) (cfg : Config) (entropy : Option Bytes) (req : Request)
    (net : Network) (out : Structured BatchOutput)
    → (answer net (authzen_evaluate_batch urls codec cfg entropy req) ≡ ok out)
      ↔ IsBatchDecided urls codec cfg entropy req net out
authzen_evaluate_batch_iff urls codec cfg entropy req net out = (
  authzen_evaluate_batch-IsBatchDecided urls codec cfg entropy req net out,
  batch_complete urls codec cfg entropy req net out,
)
