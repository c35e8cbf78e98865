-- ===== src/Opa/ResultLaws.antt =====
-- The result of evaluate_policy can be read back from the members that are encoded.
use mcp_opa.Base.{
  ◌then◌, ◌≡◌, refl, Bool, true, false, List, [], ◌∷◌, ◌++◌, Option, none, some, Bytes, String,
  str_eq, if◌then◌else◌,
}
use mcp_opa.Json.{Value}
use mcp_opa.Opa.Result.{
  ResultSet, EvaluateResult, ResultPart, truth, value_of, results_of, lines_of, ResultMembers,
  truth_unless_false, lines_unless_empty, result_members,
}

abbrev part : String → ResultMembers → Option ResultPart
part name [] = none
part name ((n, v) ∷ ms) = let later = part name ms in if str_eq n name then some v else later

-- A member that is missing is false, or has no lines.
abbrev read_flag : Option ResultPart → Bool
read_flag (some (truth b)) = b
read_flag _ = false

abbrev read_lines : Option ResultPart → List Bytes
read_lines (some (lines_of ls)) = ls
read_lines _ = []

-- A member without `omitempty` must be there, as its type.
abbrev read_truth : Option ResultPart → Option Bool
read_truth (some (truth b)) = some b
read_truth _ = none

abbrev read_value : Option ResultPart → Option Value
read_value (some (value_of v)) = some v
read_value _ = none

abbrev read_results : Option ResultPart → Option ResultSet
read_results (some (results_of rs)) = some rs
read_results _ = none

abbrev pub read_result : ResultMembers → Option EvaluateResult
read_result ms = read_truth (part "defined" ms) then λ d. read_value (part "value" ms) then λ v.
    read_results (part "result_set" ms) then λ rs. some (record {
      defined = d;
      value = v;
      result_set = rs;
      result_set_omitted = read_flag (part "result_set_omitted" ms);
      printed = read_lines (part "printed" ms);
      printed_truncated = read_flag (part "printed_truncated" ms);
      trace = read_lines (part "trace" ms);
      trace_truncated = read_flag (part "trace_truncated" ms);
    })

module _ (name : String) (rest : ResultMembers) where
  part-truth_unless_false :
      (n : String) (b : Bool)
      → str_eq n name ≡ false
      → part name (truth_unless_false n b ++ rest) ≡ part name rest
  part-truth_unless_false n true other = rw other refl
  part-truth_unless_false n false other = refl

  part-lines_unless_empty :
      (n : String) (ls : List Bytes)
      → str_eq n name ≡ false
      → part name (lines_unless_empty n ls ++ rest) ≡ part name rest
  part-lines_unless_empty n [] other = refl
  part-lines_unless_empty n (l ∷ ls) other = rw other refl

  read_flag-part :
      (b : Bool)
      → str_eq name name ≡ true
      → part name rest ≡ none
      → read_flag (part name (truth_unless_false name b ++ rest)) ≡ b
  read_flag-part true same missing = rw same refl
  read_flag-part false same missing = rw missing refl

  read_lines-part :
      (ls : List Bytes)
      → str_eq name name ≡ true
      → part name rest ≡ none
      → read_lines (part name (lines_unless_empty name ls ++ rest)) ≡ ls
  read_lines-part [] same missing = rw missing refl
  read_lines-part (l ∷ ls) same missing = rw same refl

-- The last member.
last-truth_unless_false :
    (name n : String) (b : Bool) → str_eq n name ≡ false → part name (truth_unless_false n b) ≡ none
last-truth_unless_false name n true other = rw other refl
last-truth_unless_false name n false other = refl

read_flag-last :
    (name : String) (b : Bool)
    → str_eq name name ≡ true
    → read_flag (part name (truth_unless_false name b)) ≡ b
read_flag-last name true same = rw same refl
read_flag-last name false same = refl

-- The result of evaluate_policy can be read back from the members that are encoded: whether the query
-- was defined and its value are members of their own, and what `omitempty` leaves out is false or has
-- no lines.
pub read_result-result_members : (v : EvaluateResult) → read_result (result_members v) ≡ some v
unfolding result_members
read_result-result_members v = simp (
  part-truth_unless_false, part-lines_unless_empty, read_flag-part, read_lines-part,
  last-truth_unless_false, read_flag-last,
)
