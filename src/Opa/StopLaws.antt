-- ===== src/Opa/StopLaws.antt =====
-- What evaluate_policy reports of a policy whose evaluation runs out of time, and the note behind a
-- compile error.
use mcp_opa.Base.{
  ◌≡◌, ◌⊎◌, inl, inr, Bool, true, false, List, [], ◌∷◌, none, some, Bytes, codes, String, ℕ, refl,
  ◌↔◌, ◌∙◌, >>=-eq-err, Result-cases, arith, ok, err, Bool-cases, All, Option-cases,
}
use mcp_opa.Json.{Value}
use mcp_opa.Text.Search.{contains}
use mcp_opa.Config.Load.{Config}
use mcp_opa.Args.Read.{Request}
use mcp_opa.Opa.Sandbox.{Capabilities, sandbox_hint, sandboxed_builtins, first_named}
use mcp_opa.Opa.SandboxLaws.{Occurs}
use mcp_opa.Opa.InTime.{NeverTimesOut, in_time, read_policy-NeverTimesOut, encoding-NeverTimesOut}
use mcp_opa.Opa.Evaluate.{
  Outcome, results, Policy, stopped, Run, Engine, OpaCodec, timed_out, report_run, read_policy,
  prepare, evaluate_policy,
}

abbrev pub Mentions : Bytes → String → Type 0
Mentions msg name = contains (codes name) msg ≡ true

first_named-some :
    (msg : Bytes) (names : List String) {name : String}
    → first_named msg names ≡ some name
    → Occurs name names × Mentions msg name
first_named-some msg [] h = absurd (ground arith)
first_named-some msg (n ∷ names) h = elim (Bool-cases (contains (codes n) msg)) [
  | inl named ↦ (inl (ground arith), ground arith)
  | inr other ↦ let (o, m) = first_named-some msg names (ground arith) in (inr o, m)
]

first_named-none :
    (msg : Bytes) (names : List String)
    → first_named msg names ≡ none
    → All (λ n. contains (codes n) msg ≡ false) names
first_named-none msg [] h = tt
first_named-none msg (n ∷ names) h = elim (Bool-cases (contains (codes n) msg)) [
  | inl named ↦ absurd (ground arith)
  | inr other ↦ (other, first_named-none msg names (ground arith))
]

-- The note behind a compile error names a built-in only where the sandbox is on, and then one that
-- the sandbox removes and the message mentions; without a note the sandbox is off or the message
-- mentions none of them.
pub sandbox_hint-cases :
    (msg : Bytes) (cfg : Config)
    → ((name : String) × (sandbox_hint msg cfg ≡ some name)
        × (cfg.allow_network_builtins ≡ false)
        × Occurs name sandboxed_builtins
        × Mentions msg name)
      ⊎ ((sandbox_hint msg cfg ≡ none)
          × ((cfg.allow_network_builtins ≡ true)
              ⊎ All (λ n. contains (codes n) msg ≡ false) sandboxed_builtins))
sandbox_hint-cases msg cfg = elim (Bool-cases cfg.allow_network_builtins) [
  | inl on ↦ inr (unfold sandbox_hint in ground arith, inl on)
  | inr off ↦ elim (Option-cases (first_named msg sandboxed_builtins)) [
    | inl none_named ↦ inr (
      unfold sandbox_hint in rw off none_named,
      inr (first_named-none msg sandboxed_builtins none_named),
    )
    | inr (name, found) ↦
        let (o, m) = first_named-some msg sandboxed_builtins found in
        inl (name, unfold sandbox_hint in rw off found, off, o, m)
  ]
]

module _ {Decl Rest Event : Type 0} (engine : Engine Decl Rest Event)
    (base : Capabilities Decl Rest) (pretty : List Event → Bytes) (codec : OpaCodec) (cfg : Config)
    (req : Request) where
  -- A policy that is read and compiled, and whose evaluation stops with an error.
  pub record Stops (error : Bytes) (deadline caller_done : Bool) : Type 0 where
    pub policy : Policy Decl Rest
    pub input : Value
    pub asked : read_policy base codec cfg req ≡ ok (policy, input)
    pub run : Value → Run Event
    pub compiles : engine cfg.rego_timeout policy ≡ ok run
    pub ends : (run input).outcome ≡ stopped error deadline caller_done

  prepare-NeverTimesOut : (policy : Policy Decl Rest) → NeverTimesOut (prepare engine cfg policy)
  unfolding prepare
  prepare-NeverTimesOut policy e h = elim (Result-cases (engine cfg.rego_timeout policy)) [
    | inl (d, bad) ↦ ground (arith, bad)
    | inr (run, good) ↦ absurd (ground (arith, good))
  ]

  prepare-eq-ok :
      (policy : Policy Decl Rest) (run : Value → Run Event)
      → prepare engine cfg policy ≡ ok run
      → engine cfg.rego_timeout policy ≡ ok run
  unfolding prepare
  prepare-eq-ok policy run h = elim (Result-cases (engine cfg.rego_timeout policy)) [
    | inl (d, bad) ↦ absurd (ground (arith, bad))
    | inr (found, good) ↦ good ∙ ground (arith, good)
  ]

  stopped_cases :
      (run : Run Event) (limit : ℕ) (tracing : Bool)
      → report_run codec pretty cfg tracing run ≡ err (timed_out limit)
      → (limit ≡ cfg.rego_timeout) × ((error : Bytes) × (run.outcome ≡ stopped error true false))
  unfolding report_run
  stopped_cases run limit tracing h = by_outcome run.outcome refl
    where
      by_outcome :
          (o : Outcome)
          → run.outcome ≡ o
          → (limit ≡ cfg.rego_timeout)
            × ((error : Bytes) × (run.outcome ≡ stopped error true false))
      by_outcome (results rs) is = absurd (ground (arith, is))
      by_outcome (stopped error true false) is = (ground (arith, is), (error, is))
      by_outcome (stopped error true true) is = absurd (ground (arith, is))
      by_outcome (stopped error false caller_done) is = absurd (ground (arith, is))

  times_out_sound :
      (limit : ℕ)
      → evaluate_policy engine base pretty codec cfg req ≡ err (timed_out limit)
      → (limit ≡ cfg.rego_timeout) × ((error : Bytes) × Stops error true false)
  unfolding evaluate_policy
  times_out_sound limit h = elim (>>=-eq-err (read_policy base codec cfg req) _ h) [
    | inl bad ↦ absurd (in_time limit (read_policy-NeverTimesOut base codec cfg req) bad)
    | inr (asked, read, h1) ↦ elim (>>=-eq-err (prepare engine cfg asked.0) _ h1) [
      | inl bad ↦ absurd (in_time limit (prepare-NeverTimesOut asked.0) bad)
      | inr (run, compiled, h2) ↦
          elim (>>=-eq-err (report_run codec pretty cfg (req.get_bool "trace" false) (run asked.1))
            _ h2) [
              | inl late ↦
                  let (same, (error, ends)) =
                    stopped_cases (run asked.1) limit (req.get_bool "trace" false) late in
                  (
                    same,
                    (
                      error,
                      record {
                        policy = asked.0;
                        input = asked.1;
                        asked = read;
                        run = run;
                        compiles = prepare-eq-ok asked.0 run compiled;
                        ends = ends;
                      },
                    ),
                  )
              | inr (out, reported, h3) ↦
                  absurd (in_time limit (encoding-NeverTimesOut codec out) h3)
            ]
    ]
  ]

  times_out_complete :
      (limit : ℕ)
      → (limit ≡ cfg.rego_timeout) × ((error : Bytes) × Stops error true false)
      → evaluate_policy engine base pretty codec cfg req ≡ err (timed_out limit)
  unfolding evaluate_policy prepare report_run
  times_out_complete limit (same, (error, s)) =
      rw s.asked (rw (s.compiles, prepare) (rw (s.ends, report_run) (rw same refl)))

  -- evaluate_policy reports that the evaluation ran out of time exactly when the policy was read and
  -- compiled, its evaluation stopped with its own deadline passed, and the caller's context was not
  -- done; and the limit that is named is then the configured one. No other failure is reported so.
  pub evaluate_policy-timed_out_iff :
      (limit : ℕ)
      → (evaluate_policy engine base pretty codec cfg req ≡ err (timed_out limit))
        ↔ ((limit ≡ cfg.rego_timeout) × ((error : Bytes) × Stops error true false))
  evaluate_policy-timed_out_iff limit = (times_out_sound limit, times_out_complete limit)
