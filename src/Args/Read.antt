-- ===== src/Args/Read.antt =====
-- args.go: `requiredString`, `optionalJSON`, `jsonObjectArg`, `asJSONObject` and `jsonKind`. The
-- request is a parameter, with the two getters of mcp-go that the source calls; so is the decoder.
use mcp_opa.Base.{
  ℕ, Bool, [], Option, none, some, Bytes, is_empty, length, ltb, if◌then◌else◌, Result, ok, err,
  map_err, String,
}
use mcp_opa.Json.{Value, null, boolean, number, string, array, object, RawMessage, Decode}

-- `mcp.CallToolRequest`: a getter takes the argument's name and what stands for a missing one.
pub record Request : Type 0 where
  pub get_string : String → Bytes → Bytes
  pub get_bool : String → Bool → Bool

-- Why a text is not accepted as an object: the decoder's message, or the kind of value it is.
pub data ObjectFault : Type 0 where
  not_json : Bytes → ObjectFault
  not_object : String → ObjectFault

pub data ArgError : Type 0 where
  missing : String → ArgError
  too_long : String → ℕ → ℕ → ArgError
  invalid_json : String → Bytes → ArgError
  bad_object : String → ObjectFault → ArgError

unfoldable pub required_string : Request → String → ℕ → Result ArgError Bytes
required_string req name max_bytes =
    let s = req.get_string name [] in
    if is_empty s
    then err (missing name)
    else if ltb max_bytes (length s)
    then err (too_long name (length s) max_bytes)
    else ok s

-- `none` is the result false, with the target untouched.
unfoldable pub optional_json :
    {A : Type 0} → Decode A → Request → String → ℕ → Result ArgError (Option A)
optional_json decode req name max_bytes =
    let s = req.get_string name [] in
    if is_empty s
    then ok none
    else if ltb max_bytes (length s)
    then err (too_long name (length s) max_bytes)
    else elim (decode s) [ ok v ↦ ok (some v) | err e ↦ err (invalid_json name e) ]

unfoldable pub json_kind : Value → String
json_kind null = "null"
json_kind (boolean b) = "a boolean"
json_kind (number n) = "a number"
json_kind (string s) = "a string"
json_kind (array xs) = "an array"
json_kind (object fs) = "a non-object value"

-- The type assertion `v.(map[string]any)`.
unfoldable pub object_or_fault : Bytes → Value → Result ObjectFault RawMessage
unfolding json_kind
object_or_fault b (object fs) = ok b
object_or_fault b v = err (not_object (json_kind v))

unfoldable pub as_json_object : Decode Value → Bytes → Result ObjectFault RawMessage
unfolding object_or_fault
as_json_object decode b = elim (decode b) [ ok v ↦ object_or_fault b v | err e ↦ err (not_json e) ]

unfoldable pub json_object_arg :
    Decode Value → Request → String → ℕ → Bool → Result ArgError RawMessage
json_object_arg decode req name max_bytes required =
    let s = req.get_string name [] in
    if is_empty s
    then if required then err (missing name) else ok []
    else if ltb max_bytes (length s)
    then err (too_long name (length s) max_bytes)
    else map_err (bad_object name) (as_json_object decode s)
