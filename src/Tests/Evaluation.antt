-- ===== src/Tests/Evaluation.antt =====
-- The evaluation of policies, its sandbox and its bounds.
use mcp_opa.Base.{
  err, ℕ, ◌≡◌, ◌≢◌, ◌⊎◌, ◌≤◌, ◌↔◌, ◌+◌, refl, true, false, List, [], ◌∷◌, none, some, Bytes, codes,
  if◌then◌else◌, String, ok, length, is_empty, equal, All,
}
use mcp_opa.Json.{null, boolean, Encode}
use mcp_opa.Args.Read.{Request, required_string, optional_json}
use mcp_opa.Text.Truncate.{truncate}
use mcp_opa.Text.Search.{contains, is_prefix}
use mcp_opa.Text.Lines.{split, trim_end}
use mcp_opa.Opa.Sandbox.{
  sandboxed_builtins, Builtin, Capabilities, capabilities, without_builtins, keep_builtins,
  sandbox_hint,
}
use mcp_opa.Opa.SandboxLaws.{Occurs, capabilities-sandbox}
use mcp_opa.Opa.Printer.{print_message, print_all, no_prints}
use mcp_opa.Opa.PrinterLaws.{KeepsPrints, print_all-KeepsPrints}
use mcp_opa.Opa.Trace.{trace_lines, format_trace, cut_long}
use mcp_opa.Opa.Size.{encodes_within, write_all, write, encodes_within_iff}
use mcp_opa.Opa.Evaluate.{
  stopped, Policy, timed_out, results, Engine, EvaluateResult, OpaCodec, ResultSet, single_value,
  with_results, with_trace, report_run, read_policy, prepare, evaluate_policy,
}
use mcp_opa.Opa.StopLaws.{Stops, Mentions, evaluate_policy-timed_out_iff, sandbox_hint-cases}
use mcp_opa.Opa.SandboxUse.{IsSandboxed, evaluate_policy-IsSandboxed}
use mcp_opa.Opa.EvaluateLaws.{IsEvaluated}
use mcp_opa.Opa.ExactLaws.{evaluate_policy_iff}
use mcp_opa.Tests.Configuration.{settings_config}

abbrev builtin : String → Builtin Unit
builtin name = record { name = name; decl = tt }

abbrev pub all_builtins : Capabilities Unit Unit
all_builtins = record {
  builtins = builtin "plus" ∷ builtin "http.send" ∷ builtin "opa.runtime" ∷ [];
  allow_net = none;
  rest = tt;
}

sandboxed : (capabilities all_builtins settings_config).builtins ≡ builtin "plus" ∷ []
unfolding capabilities without_builtins keep_builtins
sandboxed = refl

hint : sandbox_hint (codes "undefined function http.send") settings_config ≡ some "http.send"
unfolding sandbox_hint contains is_prefix
hint = refl

capabilities-sandbox_example :
    (Occurs (builtin "plus") (capabilities all_builtins settings_config).builtins ↔ (
      Occurs (builtin "plus") all_builtins.builtins
      × ((builtin "plus").name ≢ "http.send")
      × ((builtin "plus").name ≢ "net.lookup_ip_addr")
      × ((builtin "plus").name ≢ "opa.runtime")))
    × ((capabilities all_builtins settings_config).allow_net ≡ some [])
    × ((capabilities all_builtins settings_config).rest ≡ tt)
capabilities-sandbox_example =
    capabilities-sandbox all_builtins settings_config (builtin "plus") refl

abbrev messages : List Bytes
messages = codes "one" ∷ codes "two" ∷ []

print_all-KeepsPrints_example : KeepsPrints messages (print_all no_prints messages)
print_all-KeepsPrints_example = print_all-KeepsPrints messages

abbrev two_events : List ℕ
two_events = 1 ∷ 2 ∷ []

abbrev pub pretty : List ℕ → Bytes
pretty events = codes "enter\nexit\n\n"

shown : format_trace pretty (1 ∷ []) false ≡ (codes "enter" ∷ codes "exit" ∷ [], false)
unfolding format_trace trace_lines cut_long split trim_end
shown = refl

abbrev encode_brackets : Encode ℕ
encode_brackets v = ok (codes "[]")

encodes_within_iff_example : (text : Bytes) × (encode_brackets 0 ≡ ok text) × (length text + 1 ≤ 3)
encodes_within_iff_example =
    (encodes_within_iff encode_brackets 0 3).0 (unfold encodes_within write_all write in refl)

abbrev pub opa_codec : OpaCodec
opa_codec = record {
  decode_input = λ raw. ok null;
  decode_data = λ raw. ok (some []);
  encode_results = λ rs. ok (codes "[true]");
  encode_value = λ v. ok (codes "true");
  encode_output = λ out. ok (codes "result");
}

abbrev holds : ResultSet
holds = some (
    record {
      expressions = record { value = boolean true; text = codes "data.x" } ∷ [];
      bindings = null;
    }
    ∷ [])

abbrev pub engine : Engine Unit Unit ℕ
engine limit policy =
    ok (λ input. record { prints = messages; events = 7 ∷ []; outcome = results holds })

abbrev pub evaluates : Request
evaluates = record {
  get_string = λ name missing. if is_empty missing then codes "x" else missing;
  get_bool = λ name missing. missing;
}

abbrev pub evaluated : EvaluateResult
evaluated = record {
  defined = true;
  value = boolean true;
  result_set = holds;
  result_set_omitted = false;
  printed = messages;
  printed_truncated = false;
  trace = [];
  trace_truncated = false;
}

evaluates-evaluated :
    evaluate_policy engine all_builtins pretty opa_codec settings_config evaluates
    ≡ ok (evaluated, codes "result")
unfolding evaluate_policy read_policy prepare report_run with_results with_trace single_value
    required_string optional_json encodes_within write_all write print_all print_message truncate
    equal
evaluates-evaluated = refl

evaluate_policy_iff_example :
    IsEvaluated engine all_builtins pretty opa_codec settings_config evaluates evaluated
      (codes "result")
evaluate_policy_iff_example =
    (evaluate_policy_iff engine all_builtins pretty opa_codec settings_config evaluates evaluated
        (codes "result")).0
      evaluates-evaluated

-- The evaluation stops at its deadline.
abbrev slow_engine : Engine Unit Unit ℕ
slow_engine limit policy =
    ok (λ input. record {
      prints = [];
      events = [];
      outcome = stopped (codes "canceled") true false;
    })

slow-timed_out :
    evaluate_policy slow_engine all_builtins pretty opa_codec settings_config evaluates
    ≡ err (timed_out 5000000000)
unfolding evaluate_policy read_policy prepare report_run required_string optional_json equal
slow-timed_out = refl

evaluate_policy-timed_out_iff_example :
    (◌≡◌ {A = ℕ} 5000000000 settings_config.rego_timeout)
    × ((error : Bytes) × Stops slow_engine all_builtins pretty opa_codec settings_config evaluates
          error true false)
evaluate_policy-timed_out_iff_example =
    (evaluate_policy-timed_out_iff slow_engine all_builtins pretty opa_codec settings_config
        evaluates 5000000000).0
      slow-timed_out

sandbox_hint-cases_example :
    ((name : String) × (sandbox_hint (codes "undefined function http.send") settings_config
        ≡ some name)
      × (settings_config.allow_network_builtins ≡ false)
      × Occurs name sandboxed_builtins
      × Mentions (codes "undefined function http.send") name)
    ⊎ ((sandbox_hint (codes "undefined function http.send") settings_config ≡ none)
        × ((settings_config.allow_network_builtins ≡ true)
            ⊎ All
                (λ n. contains (codes n) (codes "undefined function http.send") ≡ false)
                sandboxed_builtins))
sandbox_hint-cases_example =
    sandbox_hint-cases (codes "undefined function http.send") settings_config

-- Another version of OPA, which refuses a policy that may ask any host for schemas.
abbrev careful_engine : Engine Unit Unit ℕ
careful_engine limit policy = elim policy.caps.allow_net [
  | none ↦ err (codes "refused")
  | some hosts ↦ engine limit policy
]

engines-agree :
    (policy : Policy Unit Unit)
    → IsSandboxed policy.caps
    → engine settings_config.rego_timeout policy
      ≡ careful_engine settings_config.rego_timeout policy
engines-agree policy s = rw s.asks_no_host refl

evaluate_policy-IsSandboxed_example :
    evaluate_policy engine all_builtins pretty opa_codec settings_config evaluates
    ≡ evaluate_policy careful_engine all_builtins pretty opa_codec settings_config evaluates
evaluate_policy-IsSandboxed_example =
    evaluate_policy-IsSandboxed engine careful_engine all_builtins pretty opa_codec settings_config
      evaluates refl engines-agree
