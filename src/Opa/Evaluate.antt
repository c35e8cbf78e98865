-- ===== src/Opa/Evaluate.antt =====
-- tool_opa.go: `evaluatePolicy` and `singleValue`. OPA is a parameter: it compiles a policy, and a
-- compiled policy run on an input prints, emits events and ends with a result set or an error. So
-- are its printer of traces and encoding/json.
use mcp_opa.Base.{
  ℕ, Bool, true, false, not, ◌&&◌, ◌||◌, List, [], ◌∷◌, Option, none, some, Bytes, codes, String,
  equal, is_empty, length, ltb, if◌then◌else◌, Result, ok, err, ◌>>=◌, map_err,
}
pub use mcp_opa.Opa.Result.{Expression, QueryResult, ResultSet, rows, EvaluateResult}
use mcp_opa.Opa.Result.{ResultMembers, result_members}
use mcp_opa.Json.{Value, null, Decode, Encode}
use mcp_opa.Config.Load.{Config}
use mcp_opa.Args.Read.{Request, ArgError, required_string, optional_json}
use mcp_opa.Opa.Sandbox.{Capabilities, capabilities, sandbox_hint}
use mcp_opa.Opa.Printer.{PrintCollector, no_prints, print_all, lines, max_result_bytes}
use mcp_opa.Opa.Tracer.{no_events, trace_all}
use mcp_opa.Opa.Trace.{format_trace}
use mcp_opa.Opa.Size.{encodes_within}

pub data RegoVersion : Type 0 where
  rego_v0 rego_v1 : RegoVersion

abbrev pub DataObject : Type 0
DataObject = List (String × Value)

-- The options that are given to `rego.New`.
pub record Policy (Decl Rest : Type 0) : Type 0 where
  pub query : Bytes
  pub source : Bytes
  pub version : RegoVersion
  pub caps : Capabilities Decl Rest
  pub print_statements : Bool
  pub strict_builtin_errors : Bool
  pub store : Option DataObject

-- How an evaluation ends: with results; or with an error, and then whether the evaluation's own
-- deadline passed and whether the caller's context was done.
pub data Outcome : Type 0 where
  results : ResultSet → Outcome
  stopped : Bytes → Bool → Bool → Outcome

pub record Run (Event : Type 0) : Type 0 where
  pub prints : List Bytes
  pub events : List Event
  pub outcome : Outcome

-- `rego.New(…).PrepareForEval` and `prepared.Eval`, with the input: both under a context with a time
-- limit, which is the first argument.
abbrev pub Engine : Type 0 → Type 0 → Type 0 → Type 0
Engine Decl Rest Event = ℕ → Policy Decl Rest → Result Bytes (Value → Run Event)

pub record OpaCodec : Type 0 where
  pub decode_input : Decode Value
  pub decode_data : Decode (Option DataObject)
  pub encode_results : Encode ResultSet
  pub encode_value : Encode Value
  pub encode_output : Encode ResultMembers

pub data OpaError : Type 0 where
  bad_argument : ArgError → OpaError
  bad_version : Bytes → OpaError
  data_not_object : OpaError
  compile_error : Bytes → Option String → OpaError
  timed_out : ℕ → OpaError
  eval_error : Bytes → OpaError
  encode_error : Bytes → OpaError

abbrev expression_value : List Expression → Value
expression_value (e ∷ []) = e.value
expression_value _ = null

unfoldable pub single_value : ResultSet → Value
single_value (some (r ∷ [])) = expression_value r.expressions
single_value _ = null

abbrev pub read_version : Bytes → Result OpaError RegoVersion
read_version v =
    if equal v (codes "v1") || is_empty v
    then ok rego_v1
    else if equal v (codes "v0")
    then ok rego_v0
    else err (bad_version v)

abbrev read_input : Option Value → Value
read_input none = null
read_input (some v) = v

-- A decoded null is a nil map, which is refused.
abbrev pub read_data : Option (Option DataObject) → Result OpaError (Option DataObject)
read_data none = ok none
read_data (some none) = err data_not_object
read_data (some (some d)) = ok (some d)

-- What is returned of the results: all of them, or the single value alone, or neither, as far as
-- they fit.
unfoldable pub with_results : OpaCodec → ResultSet → EvaluateResult → EvaluateResult
with_results codec rs out =
    if encodes_within codec.encode_results rs max_result_bytes
    then record out { result_set = rs; value = single_value rs }
    else if encodes_within codec.encode_value (single_value rs) max_result_bytes
    then record out { result_set_omitted = true; value = single_value rs }
    else record out { result_set_omitted = true }

abbrev is_some_result : ResultSet → Bool
is_some_result rs = ltb 0 (length (rows rs))

unfoldable pub with_trace :
    {Event : Type 0} → (List Event → Bytes) → Bool → List Event → EvaluateResult → EvaluateResult
with_trace pretty tracing events out =
    let t = trace_all no_events events in
    let shown = format_trace pretty t.events (ltb 0 t.dropped) in
    if tracing then record out { trace = shown.0; trace_truncated = shown.1 } else out

abbrev pub base_result : ResultSet → PrintCollector → EvaluateResult
base_result rs printer = record {
  defined = is_some_result rs;
  value = null;
  result_set = none;
  result_set_omitted = false;
  printed = (lines printer).0;
  printed_truncated = (lines printer).1;
  trace = [];
  trace_truncated = false;
}

unfoldable pub report_run :
    {Event : Type 0}
    → OpaCodec
    → (List Event → Bytes)
    → Config
    → Bool
    → Run Event
    → Result OpaError EvaluateResult
report_run codec pretty cfg tracing run = elim run.outcome [
  | stopped e deadline caller_done ↦
      if deadline && not caller_done then err (timed_out cfg.rego_timeout) else err (eval_error e)
  | results rs ↦ ok (
      with_trace pretty tracing run.events
        (with_results codec rs (base_result rs (print_all no_prints run.prints))))
]

module _ {Decl Rest : Type 0} (base : Capabilities Decl Rest) (codec : OpaCodec) (cfg : Config)
    (req : Request) where
  -- The policy that the arguments ask for, and the input.
  unfoldable pub read_policy : Result OpaError (Policy Decl Rest × Value)
  read_policy = do
    source ← map_err bad_argument (required_string req "rego" cfg.max_arg_bytes)
    query ← map_err bad_argument (required_string req "query" cfg.max_arg_bytes)
    version ← read_version (req.get_string "rego_version" (codes "v1"))
    input ←
        map_err bad_argument (optional_json codec.decode_input req "input_json" cfg.max_arg_bytes)
    data' ← map_err bad_argument (optional_json codec.decode_data req "data_json" cfg.max_arg_bytes)
    store ← read_data data'
    ok (
      record {
        query = query;
        source = source;
        version = version;
        caps = capabilities base cfg;
        print_statements = true;
        strict_builtin_errors = true;
        store = store;
      },
      read_input input,
    )

-- `PrepareForEval`: a compile error may come with the note on the sandbox.
unfoldable pub prepare :
    {Decl Rest Event : Type 0}
    → Engine Decl Rest Event
    → Config
    → Policy Decl Rest
    → Result OpaError (Value → Run Event)
prepare engine cfg policy = elim (engine cfg.rego_timeout policy) [
  | ok run ↦ ok run
  | err e ↦ err (compile_error e (sandbox_hint e cfg))
]

module _ {Decl Rest Event : Type 0} (engine : Engine Decl Rest Event)
    (base : Capabilities Decl Rest) (pretty : List Event → Bytes) (codec : OpaCodec) (cfg : Config)
    (req : Request) where
  unfoldable pub evaluate_policy : Result OpaError (EvaluateResult × Bytes)
  evaluate_policy = do
    asked ← read_policy base codec cfg req
    run ← prepare engine cfg asked.0
    out ← report_run codec pretty cfg (req.get_bool "trace" false) (run asked.1)
    text ← map_err encode_error (codec.encode_output (result_members out))
    ok (out, text)
