-- ===== src/Authzen/BatchDecides.antt =====
-- authzen_evaluate_batch in front of a decision point: each entry gets the policy's decision.
use mcp_opa.Base.{◌≡◌, Bool, List, [], ◌∷◌, ok}
use mcp_opa.Json.{RawMessage}
use mcp_opa.Config.Load.{Config}
use mcp_opa.Pdp.Wire.{EvaluationRequest}
use mcp_opa.Authzen.Codec.{Codec, BatchDecision}
use mcp_opa.Authzen.Entries.{effective}

-- The decisions are the policy's on the entries over the defaults, one for each, in their order.
abbrev pub DecidesEach :
    Codec
    → (EvaluationRequest → Bool)
    → EvaluationRequest
    → List RawMessage
    → List BatchDecision
    → Type 0
DecidesEach codec policy defaults [] [] = Unit
DecidesEach codec policy defaults [] (d ∷ ds) = ⊥
DecidesEach codec policy defaults (raw ∷ raws) [] = ⊥
DecidesEach codec policy defaults (raw ∷ raws) (d ∷ ds) =
    ((own : EvaluationRequest) × (codec.request raw ≡ ok own)
      × (d.decision ≡ policy (effective own defaults)))
    × DecidesEach codec policy defaults raws ds
