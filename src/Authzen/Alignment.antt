-- ===== src/Authzen/Alignment.antt =====
-- authzen_evaluate_batch: no decision is associated with another entry than its own.
use mcp_opa.Base.{
  ℕ, ◌≡◌, ◌∙◌, Option, some, Bytes, ok, arith, length, get_elem?, get_elem?-lt, get_elem?_of_lt,
  All-get_elem?,
}
use mcp_opa.Json.{RawMessage}
use mcp_opa.Config.Load.{Config}
use mcp_opa.Args.Read.{Request}
use mcp_opa.Pdp.Url.{UrlPackage}
use mcp_opa.Pdp.Exchange.{Network, answer}
use mcp_opa.Authzen.Codec.{Codec, BatchDecision, BatchOutput}
use mcp_opa.Authzen.EntryLaws.{IsEvaluable}
use mcp_opa.Authzen.Handlers.{Structured, authzen_evaluate_batch}
use mcp_opa.Authzen.Numbering.{Numbered-length, Numbered-IsAligned, IsAligned}
use mcp_opa.Authzen.BatchLaws.{IsBatchDecided, authzen_evaluate_batch-IsBatchDecided}

module _ (urls : UrlPackage) (codec : Codec) (cfg : Config) (entropy : Option Bytes) (req : Request)
    (net : Network) (out : Structured BatchOutput)
    (answered : answer net (authzen_evaluate_batch urls codec cfg entropy req) ≡ ok out) where
  abbrev decided : IsBatchDecided urls codec cfg entropy req net out
  decided = authzen_evaluate_batch-IsBatchDecided urls codec cfg entropy req net out answered

  decisions-length : length out.value.decisions ≡ length decided.responses
  decisions-length =
      Numbered-length 0 decided.responses out.value.decisions decided.reports.numbered

  -- In a batch that is answered, a reported decision at place `k` has index `k`, is the decision
  -- point's for that place with its context, and the entry sent at that place could be evaluated.
  pub decision-IsAligned :
      (k : ℕ) (d : BatchDecision)
      → get_elem? out.value.decisions k ≡ some d
      → (b : IsBatchDecided urls codec cfg entropy req net out) × IsAligned b.responses k k d
        × (raw : RawMessage) × (get_elem? b.entries k ≡ some raw)
        × IsEvaluable codec b.defaults raw
  decision-IsAligned k d h =
      let a =
        Numbered-IsAligned 0 decided.responses out.value.decisions k d decided.reports.numbered h in
      let (raw, sent) = get_elem?_of_lt decided.entries k (
        omega (
          arith,
          get_elem?-lt out.value.decisions k h,
          decisions-length,
          decided.reports.not_more,
        )) in
      (
        decided,
        record {
          response = a.response;
          there = a.there;
          decides = a.decides;
          context_is = a.context_is;
          index_is = a.index_is ∙ omega arith;
        },
        raw,
        sent,
        All-get_elem? (IsEvaluable codec decided.defaults) decided.entries k
            decided.reads_entries.evaluable sent,
      )
