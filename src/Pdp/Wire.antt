-- ===== src/Pdp/Wire.antt =====
-- authzen.go: the wire types, with the member names and `omitempty` of their tags. A request body
-- is the list of members that is handed to the encoder; responses come from the decoder.
use mcp_opa.Base.{
  Bool, List, [], ◌∷◌, ◌++◌, Option, none, some, Bytes, codes, is_empty, str_eq, if◌then◌else◌,
  String,
}
use mcp_opa.Json.{RawMessage}

abbrev pub path_evaluation : Bytes
path_evaluation = codes "/access/v1/evaluation"

abbrev pub path_evaluations : Bytes
path_evaluations = codes "/access/v1/evaluations"

abbrev pub path_metadata : Bytes
path_metadata = codes "/.well-known/authzen-configuration"

pub record EvaluationRequest : Type 0 where
  pub subject : RawMessage
  pub action : RawMessage
  pub resource : RawMessage
  pub context : RawMessage

-- `Decision` is a `*bool`: `none` is a body without the member.
pub record EvaluationResponse : Type 0 where
  pub decision : Option Bool
  pub context : RawMessage

abbrev pub semantic_execute_all : Bytes
semantic_execute_all = codes "execute_all"

abbrev pub semantic_deny_on_first_deny : Bytes
semantic_deny_on_first_deny = codes "deny_on_first_deny"

abbrev pub semantic_permit_on_first_perm : Bytes
semantic_permit_on_first_perm = codes "permit_on_first_permit"

pub record EvaluationsOption : Type 0 where
  pub semantic : Bytes

pub record EvaluationsRequest : Type 0 where
  pub subject : RawMessage
  pub action : RawMessage
  pub resource : RawMessage
  pub context : RawMessage
  pub evaluations : List RawMessage
  pub options : Option EvaluationsOption

-- `none` is a body without the member, or with a null there.
pub record EvaluationsResponse : Type 0 where
  pub evaluations : Option (List EvaluationResponse)

pub record PdpMetadata : Type 0 where
  pub policy_decision_point : Bytes
  pub access_evaluation_endpoint : Bytes
  pub access_evaluations_endpoint : Bytes
  pub search_subject_endpoint : Bytes
  pub search_resource_endpoint : Bytes
  pub search_action_endpoint : Bytes
  pub capabilities : RawMessage
  pub signed_metadata : Bytes
  pub supported_evaluation_options : RawMessage

-- What stands behind a member's name in a request body: a raw message, an array of them, or an
-- object with one text, or with none.
pub data Part : Type 0 where
  raw : RawMessage → Part
  raws : List RawMessage → Part
  text_object : String → Bytes → Part
  empty_object : Part

abbrev pub Members : Type 0
Members = List (String × Part)

-- A member without `omitempty`: a nil message is encoded as null.
abbrev pub always : String → RawMessage → Members
always name m = (name, raw (if is_empty m then codes "null" else m)) ∷ []

-- A member with `omitempty`.
abbrev pub unless_empty : String → RawMessage → Members
unless_empty name m = if is_empty m then [] else (name, raw m) ∷ []

unfoldable pub evaluation_members : EvaluationRequest → Members
evaluation_members r =
    always "subject" r.subject
    ++ (always "action" r.action
        ++ (always "resource" r.resource ++ unless_empty "context" r.context))

-- The options: the semantic is a member with `omitempty`.
abbrev pub option_part : EvaluationsOption → Part
option_part o =
    if is_empty o.semantic then empty_object else text_object "evaluations_semantic" o.semantic

abbrev pub option_member : Option EvaluationsOption → Members
option_member none = []
option_member (some o) = ("options", option_part o) ∷ []

unfoldable pub evaluations_members : EvaluationsRequest → Members
evaluations_members r =
    unless_empty "subject" r.subject
    ++ (unless_empty "action" r.action
        ++ (unless_empty "resource" r.resource
            ++ (unless_empty "context" r.context
                ++ (("evaluations", raws r.evaluations) ∷ option_member r.options))))

-- The part of a body behind a name.
abbrev pub part_named : String → Members → Option Part
part_named name [] = none
part_named name ((n, p) ∷ ms) = if str_eq n name then some p else part_named name ms
