-- ===== src/Opa/EvaluateLaws.antt =====
-- What evaluate_policy reports of an evaluation.
use mcp_opa.Base.{
  ◌≡◌, inl, inr, refl, ap, sym, ◌∙◌, subst, Bool, false, List, Bytes, ok, ok-injective, map_err,
  map_err-eq-ok, >>=-eq-ok, Result-cases, arith,
}
use mcp_opa.Json.{Value}
use mcp_opa.Config.Load.{Config}
use mcp_opa.Args.Read.{Request}
use mcp_opa.Opa.Sandbox.{Capabilities}
use mcp_opa.Opa.Printer.{no_prints, print_all, lines}
use mcp_opa.Opa.Result.{result_members}
use mcp_opa.Opa.ResultMarks.{
  TellsResults, IsBoundedResult, with_results-TellsResults, with_trace-TellsResults,
  with_trace-IsBoundedResult, with_results-keeps,
}
use mcp_opa.Opa.Evaluate.{
  ResultSet, Policy, Outcome, results, stopped, Run, Engine, EvaluateResult, OpaCodec, encode_error,
  with_results, with_trace, base_result, report_run, read_policy, prepare, evaluate_policy,
}

-- A policy that was evaluated, and what is reported.
pub record IsEvaluated {Decl Rest Event : Type 0} (engine : Engine Decl Rest Event)
    (base : Capabilities Decl Rest) (pretty : List Event → Bytes) (codec : OpaCodec) (cfg : Config)
    (req : Request) (out : EvaluateResult) (text : Bytes) : Type 0 where
  pub policy : Policy Decl Rest
  pub input : Value
  pub asked : read_policy base codec cfg req ≡ ok (policy, input)
  pub run : Value → Run Event
  pub compiles : engine cfg.rego_timeout policy ≡ ok run
  pub found : ResultSet
  pub ends : (run input).outcome ≡ results found
  pub tells : TellsResults codec found out
  pub bounded :
      IsBoundedResult pretty (run input).events (run input).prints (req.get_bool "trace" false) out
  pub text_is : codec.encode_output (result_members out) ≡ ok text

module _ {Event : Type 0} (codec : OpaCodec) (pretty : List Event → Bytes) (cfg : Config)
    (tracing : Bool) (run : Run Event) where
  abbrev pub reported : ResultSet → EvaluateResult
  reported rs =
      with_trace pretty tracing run.events
        (with_results codec rs (base_result rs (print_all no_prints run.prints)))

  pub reported_tells :
      (rs : ResultSet)
      → TellsResults codec rs (reported rs)
        × IsBoundedResult pretty run.events run.prints tracing (reported rs)
  reported_tells rs =
      let start = base_result rs (print_all no_prints run.prints) in
      let shown = with_results codec rs start in
      let (printed, lost, lines, mark) = with_results-keeps codec rs start in
      (
        with_trace-TellsResults codec pretty run.events shown tracing rs
            (with_results-TellsResults codec rs start refl refl refl refl),
        with_trace-IsBoundedResult codec pretty run.events shown tracing run.prints printed lost
            lines mark,
      )

  report_run_sound :
      (end : Outcome) {out : EvaluateResult}
      → run.outcome ≡ end
      → report_run codec pretty cfg tracing run ≡ ok out
      → (rs : ResultSet) × (end ≡ results rs)
        × TellsResults codec rs out
        × IsBoundedResult pretty run.events run.prints tracing out
  report_run_sound (stopped e deadline caller_done) ends h =
      absurd (unfold report_run in ground (arith, ends))
  report_run_sound (results rs) {out} ends h =
      let same : reported rs ≡ out = unfold report_run in ground (arith, ends) in
      let (tells, bounded) = reported_tells rs in
      (
        rs,
        refl,
        subst (TellsResults codec rs) same tells,
        subst (IsBoundedResult pretty run.events run.prints tracing) same bounded,
      )

prepare_sound :
    {Decl Rest Event : Type 0} (engine : Engine Decl Rest Event) (cfg : Config)
    (policy : Policy Decl Rest) {run : Value → Run Event}
    → prepare engine cfg policy ≡ ok run
    → engine cfg.rego_timeout policy ≡ ok run
unfolding prepare
prepare_sound engine cfg policy h = elim (Result-cases (engine cfg.rego_timeout policy)) [
  | inl (e, bad) ↦ absurd (ground (arith, bad))
  | inr (run', good) ↦ ground (arith, good)
]

-- A result of evaluate_policy comes from an evaluation that ended with results: `defined` says
-- whether there were any, the results are whole or marked as omitted for their size, and what the
-- policy printed or traced is bounded and marked where it was cut.
pub evaluate_policy-IsEvaluated :
    {Decl Rest Event : Type 0} (engine : Engine Decl Rest Event) (base : Capabilities Decl Rest)
    (pretty : List Event → Bytes) (codec : OpaCodec) (cfg : Config) (req : Request)
    (out : EvaluateResult) (text : Bytes)
    → evaluate_policy engine base pretty codec cfg req ≡ ok (out, text)
    → IsEvaluated engine base pretty codec cfg req out text
unfolding evaluate_policy
evaluate_policy-IsEvaluated engine base pretty codec cfg req out text h =
    let tracing = req.get_bool "trace" false in
    let (asked, h0, h1) = >>=-eq-ok (read_policy base codec cfg req) _ h in
    let (run, h2, h3) = >>=-eq-ok (prepare engine cfg asked.0) _ h1 in
    let (out', h4, h5) = >>=-eq-ok (report_run codec pretty cfg tracing (run asked.1)) _ h3 in
    let (text', h6, h7) =
      >>=-eq-ok (map_err encode_error (codec.encode_output (result_members out')))
        (λ text. ok (out', text)) h5 in
    let (rs, ends, tells, bounded) =
      report_run_sound codec pretty cfg tracing (run asked.1) (run asked.1).outcome refl h4 in
    let same : out' ≡ out = ap (λ p. p.0) (ok-injective h7) in
    let same_text : text' ≡ text = ap (λ p. p.1) (ok-injective h7) in
    record {
      policy = asked.0;
      input = asked.1;
      asked = h0;
      run = run;
      compiles = prepare_sound engine cfg asked.0 h2;
      found = rs;
      ends = ends;
      tells = subst (TellsResults codec rs) same tells;
      bounded =
          subst (IsBoundedResult pretty (run asked.1).events (run asked.1).prints tracing) same
            bounded;
      text_is =
          ap (λ v. codec.encode_output (result_members v)) (sym same)
          ∙ map_err-eq-ok encode_error (codec.encode_output (result_members out')) h6
          ∙ ap ok same_text;
    }
