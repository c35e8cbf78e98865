-- ===== src/Authzen/Numbering.antt =====
-- The decisions of a batch keep the places of the responses.
use mcp_opa.Base.{
  ℕ, zero, suc, ◌+◌, ◌≡◌, inl, inr, refl, ap, sym, ◌∙◌, subst, List, [], ◌∷◌, none, some,
  some-injective, arith, ok, err, Result-cases, Option-cases, length, get_elem?,
}
use mcp_opa.Pdp.Wire.{EvaluationResponse}
use mcp_opa.Authzen.Codec.{BatchDecision}
use mcp_opa.Authzen.Handlers.{number_decisions}

-- Each decision is the response's at its place, and carries the number of that place.
abbrev pub Numbered : ℕ → List EvaluationResponse → List BatchDecision → Type 0
Numbered i [] [] = Unit
Numbered i [] (d ∷ ds) = ⊥
Numbered i (e ∷ es) [] = ⊥
Numbered i (e ∷ es) (d ∷ ds) =
    (e.decision ≡ some d.decision)
    × (d.index ≡ i)
    × (d.context ≡ e.context)
    × Numbered (i + 1) es ds

pub Numbered-length :
    (i : ℕ) (es : List EvaluationResponse) (ds : List BatchDecision)
    → Numbered i es ds
    → length ds ≡ length es
Numbered-length i [] [] n = refl
Numbered-length i [] (d ∷ ds) n = absurd n
Numbered-length i (e ∷ es) [] n = absurd n
Numbered-length i (e ∷ es) (d ∷ ds) n = ap suc (Numbered-length (i + 1) es ds n.3)

-- The decision at place `k` has that index, and is that of the response there.
pub record IsAligned (es : List EvaluationResponse) (k : ℕ) (index : ℕ) (d : BatchDecision)
    : Type 0 where
  pub response : EvaluationResponse
  pub there : get_elem? es k ≡ some response
  pub decides : response.decision ≡ some d.decision
  pub context_is : d.context ≡ response.context
  pub index_is : d.index ≡ index

pub Numbered-IsAligned :
    (i : ℕ) (es : List EvaluationResponse) (ds : List BatchDecision) (k : ℕ) (d : BatchDecision)
    → Numbered i es ds
    → get_elem? ds k ≡ some d
    → IsAligned es k (i + k) d
Numbered-IsAligned i [] [] k d n h = cc
Numbered-IsAligned i [] (x ∷ ds) k d n h = absurd n
Numbered-IsAligned i (e ∷ es) [] k d n h = absurd n
Numbered-IsAligned i (e ∷ es) (x ∷ ds) zero d n h =
    let same : x ≡ d = some-injective x d h in
    record {
      response = e;
      there = refl;
      decides = n.0 ∙ ap (λ (d : BatchDecision). some d.decision) same;
      context_is = ap (λ (d : BatchDecision). d.context) (sym same) ∙ n.2;
      index_is = ap (λ (d : BatchDecision). d.index) (sym same) ∙ n.1 ∙ omega arith;
    }
Numbered-IsAligned i (e ∷ es) (x ∷ ds) (suc k) d n h =
    let a = Numbered-IsAligned (i + 1) es ds k d n.3 h in
    record {
      response = a.response;
      there = a.there;
      decides = a.decides;
      context_is = a.context_is;
      index_is = a.index_is ∙ omega arith;
    }

pub number_decisions-Numbered :
    (i : ℕ) (es : List EvaluationResponse) (ds : List BatchDecision)
    → number_decisions i es ≡ ok ds
    → Numbered i es ds
unfolding number_decisions
number_decisions-Numbered i [] [] h = tt
number_decisions-Numbered i [] (d ∷ ds) h = cc
number_decisions-Numbered i (e ∷ es) ds h = elim (Option-cases e.decision) [
  | inl missing ↦ absurd (ground (arith, missing))
  | inr (b, found) ↦ elim (Result-cases (number_decisions (i + 1) es)) [
    | inl (j, bad) ↦ absurd (ground (arith, found, bad))
    | inr (rest, good) ↦
        let here : BatchDecision = record { index = i; decision = b; context = e.context } in
        let same : here ∷ rest ≡ ds = ground (arith, found, good) in
        subst (Numbered i (e ∷ es)) same
          (found, refl, refl, number_decisions-Numbered (i + 1) es rest good)
  ]
]

-- Where the numbering of decisions fails, it names a place, and the response there has no
-- decision.
number_decisions-err :
    (i : ℕ) (es : List EvaluationResponse) {j : ℕ}
    → number_decisions i es ≡ err j
    → (k : ℕ) × (j ≡ i + k)
      × ((e : EvaluationResponse) × (get_elem? es k ≡ some e) × (e.decision ≡ none))
unfolding number_decisions
number_decisions-err i [] h = cc
number_decisions-err i (e ∷ es) {j} h = elim (Option-cases e.decision) [
  | inl missing ↦ (0, ground (arith, missing), (e, refl, missing))
  | inr (b, found) ↦ elim (Result-cases (number_decisions (i + 1) es)) [
    | inl (j', bad) ↦
        let (k, same, x) = number_decisions-err (i + 1) es bad in
        (suc k, ground (arith, found, bad, same), x)
    | inr (rest, good) ↦ absurd (ground (arith, found, good))
  ]
]
