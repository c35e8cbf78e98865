-- ===== src/Authzen/Output.antt =====
-- tool_authzen.go and authzen.go: the member names and `omitempty` of the results' tags. What a tool
-- returns is the object that is handed to the encoder.
use mcp_opa.Base.{ℕ, Bool, List, [], ◌∷◌, Bytes, is_empty, if◌then◌else◌, String}
use mcp_opa.Json.{RawMessage}
use mcp_opa.Pdp.Wire.{PdpMetadata}

pub record EvaluateOutput : Type 0 where
  pub decision : Bool
  pub context : RawMessage
  pub pdp_url : Bytes
  pub request_id : Bytes

pub record BatchDecision : Type 0 where
  pub index : ℕ
  pub decision : Bool
  pub context : RawMessage

pub record BatchOutput : Type 0 where
  pub decisions : List BatchDecision
  pub semantic : Bytes
  pub truncated : Bool
  pub pdp_url : Bytes
  pub request_id : Bytes

pub record DiscoverOutput : Type 0 where
  pub metadata_url : Bytes
  pub metadata : PdpMetadata

-- A value of a result, as encoding/json sees it.
mutual
  pub data Node : Type 0 where
    truth : Bool → Node
    whole : ℕ → Node
    text_node : Bytes → Node
    raw_node : RawMessage → Node
    object_node : Object → Node
    list_node : Objects → Node

  pub data Object : Type 0 where
    no_member : Object
    with_member : String → Node → Object → Object

  pub data Objects : Type 0 where
    no_object : Objects
    with_object : Object → Objects → Objects

infixr 5 ◌&◌
abbrev pub ◌&◌ : String × Node → Object → Object
(name, v) & rest = with_member name v rest

-- Members with `omitempty`.
abbrev pub raw_unless_empty : String → RawMessage → Object → Object
raw_unless_empty name m rest = if is_empty m then rest else with_member name (raw_node m) rest

abbrev pub text_unless_empty : String → Bytes → Object → Object
text_unless_empty name t rest = if is_empty t then rest else with_member name (text_node t) rest

unfoldable pub evaluate_object : EvaluateOutput → Object
evaluate_object v =
    ("decision", truth v.decision)
    & raw_unless_empty "context" v.context
        (("pdp_url", text_node v.pdp_url) & ("request_id", text_node v.request_id) & no_member)

unfoldable pub decision_object : BatchDecision → Object
decision_object d =
    ("index", whole d.index)
    & ("decision", truth d.decision)
    & raw_unless_empty "context" d.context no_member

unfoldable pub decision_objects : List BatchDecision → Objects
decision_objects [] = no_object
decision_objects (d ∷ ds) = with_object (decision_object d) (decision_objects ds)

unfoldable pub batch_object : BatchOutput → Object
batch_object v =
    ("decisions", list_node (decision_objects v.decisions))
    & ("evaluations_semantic", text_node v.semantic)
    & ("truncated", truth v.truncated)
    & ("pdp_url", text_node v.pdp_url)
    & ("request_id", text_node v.request_id)
    & no_member

unfoldable pub metadata_object : PdpMetadata → Object
metadata_object m =
    ("policy_decision_point", text_node m.policy_decision_point)
    & ("access_evaluation_endpoint", text_node m.access_evaluation_endpoint)
    & text_unless_empty "access_evaluations_endpoint" m.access_evaluations_endpoint (
        text_unless_empty "search_subject_endpoint" m.search_subject_endpoint (
          text_unless_empty "search_resource_endpoint" m.search_resource_endpoint (
            text_unless_empty "search_action_endpoint" m.search_action_endpoint (
              raw_unless_empty "capabilities" m.capabilities (
                text_unless_empty "signed_metadata" m.signed_metadata (
                  raw_unless_empty "supported_evaluation_options" m.supported_evaluation_options
                    no_member))))))

unfoldable pub discover_object : DiscoverOutput → Object
discover_object v =
    ("metadata_url", text_node v.metadata_url)
    & ("metadata", object_node (metadata_object v.metadata))
    & no_member
