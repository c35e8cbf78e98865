-- ===== src/Authzen/Entities.antt =====
-- tool_authzen.go: `requireMembers`, `validateEntities`, `firstPresent` and `readEvaluationArgs`.
use mcp_opa.Base.{
  ℕ, Bool, false, List, [], ◌∷◌, Option, none, some, Bytes, String, str_eq, is_empty, if◌then◌else◌,
  Result, ok, err, ◌>>=◌, ◌>>◌, map_err,
}
use mcp_opa.Json.{Value, string, RawMessage, RawObject, Decode}
use mcp_opa.Config.Load.{Config}
use mcp_opa.Args.Read.{Request, ArgError, ObjectFault, json_kind, json_object_arg}
use mcp_opa.Pdp.Wire.{EvaluationRequest}
use mcp_opa.Authzen.Codec.{Codec}

pub data Entity : Type 0 where
  subject action resource : Entity

-- Where an entity stands: in an argument, or in an entry of `evaluations`.
pub data Place : Type 0 where
  argument : Place
  entry : ℕ → Place

pub data EntityFault : Type 0 where
  not_an_object : Bytes → EntityFault
  lacks : String → EntityFault
  member_not_json : String → Bytes → EntityFault
  member_kind : String → String → EntityFault
  member_empty : String → EntityFault

pub data RequestError : Type 0 where
  bad_argument : ArgError → RequestError
  bad_entity : Place → Entity → EntityFault → RequestError
  no_evaluations : RequestError
  not_an_array : RequestError
  nothing_to_evaluate : RequestError
  too_many : ℕ → RequestError
  entry_not_object : ℕ → ObjectFault → RequestError
  entry_not_request : ℕ → Bytes → RequestError
  no_fallback : ℕ → Entity → RequestError

-- `obj[m]`
unfoldable pub member : String → List (String × RawMessage) → Option RawMessage
member name [] = none
member name ((n, v) ∷ obj) = if str_eq n name then some v else member name obj

-- A nil map has no members.
abbrev pub entries_of : RawObject → List (String × RawMessage)
entries_of none = []
entries_of (some obj) = obj

unfoldable pub text_or_fault : String → Value → Result EntityFault (Unit {0})
text_or_fault m (string s) = if is_empty s then err (member_empty m) else ok tt
text_or_fault m v = err (member_kind m (json_kind v))

unfoldable pub require_member :
    Decode Value → List (String × RawMessage) → String → Result EntityFault (Unit {0})
require_member decode obj m = elim (member m obj) [
  | none ↦ err (lacks m)
  | some v ↦ elim (decode v) [ err e ↦ err (member_not_json m e) | ok d ↦ text_or_fault m d ]
]

unfoldable pub each_member :
    Decode Value → List (String × RawMessage) → List String → Result EntityFault (Unit {0})
each_member decode obj [] = ok tt
each_member decode obj (m ∷ ms) = do require_member decode obj m; each_member decode obj ms

unfoldable pub require_members : Codec → RawMessage → List String → Result EntityFault (Unit {0})
require_members codec raw ms = if is_empty raw then ok tt else elim (codec.members raw) [
  | err e ↦ err (not_an_object e)
  | ok obj ↦ each_member codec.any (entries_of obj) ms
]

-- The members that the specification requires of each entity.
abbrev pub required_members : Entity → List String
required_members subject = "type" ∷ "id" ∷ []
required_members action = "name" ∷ []
required_members resource = "type" ∷ "id" ∷ []

abbrev pub entity_of : EvaluationRequest → Entity → RawMessage
entity_of r subject = r.subject
entity_of r action = r.action
entity_of r resource = r.resource

abbrev pub check_entity :
    Codec → EvaluationRequest → Place → Entity → Result RequestError (Unit {0})
check_entity codec r place e =
    map_err (bad_entity place e) (require_members codec (entity_of r e) (required_members e))

unfoldable pub validate_entities :
    Codec → EvaluationRequest → Place → Result RequestError (Unit {0})
validate_entities codec r place = do
  check_entity codec r place subject
  check_entity codec r place action
  check_entity codec r place resource

unfoldable pub first_present : RawMessage → RawMessage → RawMessage
first_present own fallback = if is_empty own then fallback else own

abbrev pub object_argument :
    Codec → Request → Config → String → Bool → Result RequestError RawMessage
object_argument codec req cfg name required =
    map_err bad_argument (json_object_arg codec.any req name cfg.max_arg_bytes required)

unfoldable pub read_evaluation_args :
    Codec → Request → Config → Bool → Result RequestError EvaluationRequest
read_evaluation_args codec req cfg required = do
  s ← object_argument codec req cfg "subject" required
  a ← object_argument codec req cfg "action" required
  r ← object_argument codec req cfg "resource" required
  c ← object_argument codec req cfg "context" false
  let out : EvaluationRequest = record { subject = s; action = a; resource = r; context = c }
  validate_entities codec out argument
  ok out
