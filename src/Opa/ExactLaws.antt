-- ===== src/Opa/ExactLaws.antt =====
-- evaluate_policy gives a result exactly when its evaluation ends with results, and what is said of
-- the result determines it.
use mcp_opa.Base.{◌≡◌, ◌↔◌, ◌⊎◌, inl, inr, refl, sym, ◌∙◌, Bool, true, false, List, [], Bytes, ok}
use mcp_opa.Config.Load.{Config}
use mcp_opa.Args.Read.{Request}
use mcp_opa.Opa.Sandbox.{Capabilities}
use mcp_opa.Opa.Evaluate.{
  ResultSet, Engine, EvaluateResult, OpaCodec, report_run, prepare, evaluate_policy,
}
use mcp_opa.Opa.ResultMarks.{TellsResults, TellsTrace, IsBoundedResult}
use mcp_opa.Opa.EvaluateLaws.{IsEvaluated, reported, reported_tells, evaluate_policy-IsEvaluated}

-- Two marks that are set in the same cases.
same_mark : {P : Type 0} (a b : Bool) → ((a ≡ true) ↔ P) → ((b ≡ true) ↔ P) → a ≡ b
same_mark true true p q = refl
same_mark true false p q = sym (q.1 (p.0 refl))
same_mark false true p q = p.1 (q.0 refl)
same_mark false false p q = refl

TellsTrace-same :
    {Event : Type 0} (pretty : List Event → Bytes) (events : List Event) {shown shown' : List Bytes}
    {marked marked' : Bool}
    → TellsTrace pretty events shown marked
    → TellsTrace pretty events shown' marked'
    → (shown ≡ shown') × (marked ≡ marked')
TellsTrace-same pretty events (inl (e, s, m)) (inl (e', s', m')) = (s ∙ sym s', m ∙ sym m')
TellsTrace-same pretty events (inl (e, s, m)) (inr (ne, s', m')) = absurd (ne e)
TellsTrace-same pretty events (inr (ne, s, m)) (inl (e, s', m')) = absurd (ne e)
TellsTrace-same pretty events {shown} {shown'} {marked} {marked'} (inr (ne, s, m))
      (inr (ne', s', m')) =
    (s ∙ sym s', same_mark marked marked' m m')

module _ (codec : OpaCodec) (rs : ResultSet) where
  TellsResults-same :
      (a b : EvaluateResult)
      → TellsResults codec rs a
      → TellsResults codec rs b
      → (a.defined ≡ b.defined)
        × (a.value ≡ b.value)
        × (a.result_set ≡ b.result_set)
        × (a.result_set_omitted ≡ b.result_set_omitted)
  TellsResults-same a b t u = elim t.whole_or_omitted [
    | inl (fits, s, o, v) ↦ elim u.whole_or_omitted [
      | inl (fits', s', o', v') ↦ (
        same_mark a.defined b.defined t.defined_iff u.defined_iff,
        v ∙ sym v',
        s ∙ sym s',
        o ∙ sym o',
      )
      | inr (large, s', o', v') ↦ absurd (cc)
    ]
    | inr (large, s, o, v) ↦ elim u.whole_or_omitted [
      | inl (fits, s', o', v') ↦ absurd (cc)
      | inr (large', s', o', v') ↦ (
        same_mark a.defined b.defined t.defined_iff u.defined_iff,
        value a.value b.value v v',
        s ∙ sym s',
        o ∙ sym o',
      )
    ]
  ]
    where
      value :
          {A : Type 0} {x n : A} {fit : Bool} (a b : A)
          → ((fit ≡ true) × (a ≡ x)) ⊎ ((fit ≡ false) × (a ≡ n))
          → ((fit ≡ true) × (b ≡ x)) ⊎ ((fit ≡ false) × (b ≡ n))
          → a ≡ b
      value a b (inl (f, e)) (inl (f', e')) = e ∙ sym e'
      value a b (inl (f, e)) (inr (f', e')) = absurd (cc)
      value a b (inr (f, e)) (inl (f', e')) = absurd (cc)
      value a b (inr (f, e)) (inr (f', e')) = e ∙ sym e'

module _ {Event : Type 0} (pretty : List Event → Bytes) (events : List Event)
    (prints : List Bytes) where
  IsBoundedResult-same :
      (tracing : Bool) (a b : EvaluateResult)
      → IsBoundedResult pretty events prints tracing a
      → IsBoundedResult pretty events prints tracing b
      → (a.printed ≡ b.printed)
        × (a.printed_truncated ≡ b.printed_truncated)
        × ((a.trace ≡ b.trace) × (a.trace_truncated ≡ b.trace_truncated))
  IsBoundedResult-same tracing a b x y = (
    x.printed_is ∙ sym y.printed_is,
    same_mark a.printed_truncated b.printed_truncated x.printed_lost y.printed_lost,
    traces tracing x y,
  )
    where
      untraced :
          (◌≡◌ {A = Bool} false true) ⊎ ((a.trace ≡ []) × (a.trace_truncated ≡ false))
          → (◌≡◌ {A = Bool} false true) ⊎ ((b.trace ≡ []) × (b.trace_truncated ≡ false))
          → (a.trace ≡ b.trace) × (a.trace_truncated ≡ b.trace_truncated)
      untraced (inl h) k = absurd (cc)
      untraced (inr h) (inl k) = absurd (cc)
      untraced (inr (e, m)) (inr (e', m')) = (e ∙ sym e', m ∙ sym m')

      traces :
          (tracing : Bool)
          → IsBoundedResult pretty events prints tracing a
          → IsBoundedResult pretty events prints tracing b
          → (a.trace ≡ b.trace) × (a.trace_truncated ≡ b.trace_truncated)
      traces true x y = TellsTrace-same pretty events (x.traced refl) (y.traced refl)
      traces false x y = untraced x.no_trace y.no_trace

module _ {Decl Rest Event : Type 0} (engine : Engine Decl Rest Event)
    (base : Capabilities Decl Rest) (pretty : List Event → Bytes) (codec : OpaCodec) (cfg : Config)
    (req : Request) where
  evaluate_policy_complete :
      (out : EvaluateResult) (text : Bytes)
      → IsEvaluated engine base pretty codec cfg req out text
      → evaluate_policy engine base pretty codec cfg req ≡ ok (out, text)
  unfolding evaluate_policy prepare report_run
  evaluate_policy_complete out text c =
      let tracing = req.get_bool "trace" false in
      let run = c.run c.input in
      let made = reported codec pretty cfg tracing run c.found in
      let (tells, bounded) = reported_tells codec pretty cfg tracing run c.found in
      let (d, v, s, o) = TellsResults-same codec c.found made out tells c.tells in
      let (p, pt, (t, tt')) =
        IsBoundedResult-same pretty run.events run.prints tracing made out bounded c.bounded in
      let same : made ≡ out = λ i. record {
        defined = d i;
        value = v i;
        result_set = s i;
        result_set_omitted = o i;
        printed = p i;
        printed_truncated = pt i;
        trace = t i;
        trace_truncated = tt' i;
      } in
      rw c.asked (rw (c.compiles, prepare) (rw (c.ends, report_run) (rw same (rw c.text_is refl))))

  -- evaluate_policy gives a result exactly when the policy is read and compiled, its evaluation within
  -- the configured time ends with results, and the result can be encoded; and the result is then
  -- determined: `defined` says whether there are any rows, the results are whole, or left out and
  -- marked where they exceed 256 KiB, with the single value where that fits; what was printed, and with
  -- tracing the trace, are the first two hundred lines, each cut, and each is marked exactly where
  -- something was lost.
  pub evaluate_policy_iff :
      (out : EvaluateResult) (text : Bytes)
      → (evaluate_policy engine base pretty codec cfg req ≡ ok (out, text))
        ↔ IsEvaluated engine base pretty codec cfg req out text
  evaluate_policy_iff out text = (
    evaluate_policy-IsEvaluated engine base pretty codec cfg req out text,
    evaluate_policy_complete out text,
  )
