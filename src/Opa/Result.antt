-- ===== src/Opa/Result.antt =====
-- tool_opa.go: `evaluateResult`, with the member names and `omitempty` of its tags, and of OPA's
-- results what the source reads.
use mcp_opa.Base.{
  Bool, true, none, some, List, [], ◌∷◌, ◌++◌, Option, Bytes, String, is_empty, if◌then◌else◌,
}
use mcp_opa.Json.{Value}

-- `rego.ResultSet`: of an expression the source reads the value.
pub record Expression : Type 0 where
  pub value : Value
  pub text : Bytes

pub record QueryResult : Type 0 where
  pub expressions : List Expression
  pub bindings : Value

-- A slice: `none` is nil, which is encoded as null.
abbrev pub ResultSet : Type 0
ResultSet = Option (List QueryResult)

abbrev pub rows : ResultSet → List QueryResult
rows none = []
rows (some rs) = rs

pub record EvaluateResult : Type 0 where
  pub defined : Bool
  pub value : Value
  pub result_set : ResultSet
  pub result_set_omitted : Bool
  pub printed : List Bytes
  pub printed_truncated : Bool
  pub trace : List Bytes
  pub trace_truncated : Bool

-- What stands behind a member's name.
pub data ResultPart : Type 0 where
  truth : Bool → ResultPart
  value_of : Value → ResultPart
  results_of : ResultSet → ResultPart
  lines_of : List Bytes → ResultPart

abbrev pub ResultMembers : Type 0
ResultMembers = List (String × ResultPart)

abbrev pub truth_unless_false : String → Bool → ResultMembers
truth_unless_false name b = if b then (name, truth true) ∷ [] else []

abbrev pub lines_unless_empty : String → List Bytes → ResultMembers
lines_unless_empty name ls = if is_empty ls then [] else (name, lines_of ls) ∷ []

-- The members that are handed to the encoder.
unfoldable pub result_members : EvaluateResult → ResultMembers
result_members v =
    ("defined", truth v.defined)
    ∷ ("value", value_of v.value)
    ∷ ("result_set", results_of v.result_set)
    ∷ (truth_unless_false "result_set_omitted" v.result_set_omitted
        ++ (lines_unless_empty "printed" v.printed
            ++ (truth_unless_false "printed_truncated" v.printed_truncated
                ++ (lines_unless_empty "trace" v.trace
                    ++ truth_unless_false "trace_truncated" v.trace_truncated))))
