-- ===== src/Tests/Authzen.antt =====
-- The three tools that talk to a decision point, with a small encoding/json: an object is a text
-- that begins with a brace and has the members of a subject, an action and a resource.
use mcp_opa.Base.{
  ◌≡◌, ◌⊎◌, ◌||◌, refl, Bool, true, false, [], ◌∷◌, Option, none, some, Bytes, codes, if◌then◌else◌,
  str_eq, Result, ok, err, is_empty, equal, get_elem?,
}
use mcp_opa.Json.{Value, string, object, end, RawMessage}
use mcp_opa.Args.Read.{Request, json_object_arg, as_json_object, object_or_fault, optional_json}
use mcp_opa.Text.Suffix.{has_suffix, trim_suffix}
use mcp_opa.Pdp.Wire.{
  EvaluationRequest, EvaluationResponse, PdpMetadata, evaluation_members, evaluations_members,
  semantic_execute_all,
}
use mcp_opa.Pdp.Url.{
  validate_url, validate_pdp_url, strip_known, root_of, resolve_from_root, batch_endpoint_from,
  resolve_endpoint,
}
use mcp_opa.Pdp.Exchange.{HttpRequest, response, Network, answer, requests}
use mcp_opa.Pdp.Client.{
  new_request_id, do_request, receive, read_response, read_limited, post_json, get_json,
}
use mcp_opa.Authzen.Codec.{Codec, EvaluateOutput, BatchDecision, BatchOutput, DiscoverOutput}
use mcp_opa.Authzen.Entities.{
  subject, argument, validate_entities, require_members, each_member, require_member, member,
  text_or_fault, first_present, read_evaluation_args,
}
use mcp_opa.Authzen.EntityLaws.{IsAcceptable}
use mcp_opa.Authzen.RequestLaws.{validate_entities_iff}
use mcp_opa.Authzen.Entries.{read_evaluation_entries, bounded_entries, check_entries, check_entry}
use mcp_opa.Authzen.EntryLaws.{ReadsEntries, read_evaluation_entries_iff}
use mcp_opa.Authzen.Handlers.{
  Structured, structured_result, number_decisions, batch_endpoint, report_evaluation, report_batch,
  report_metadata, authzen_evaluate, authzen_evaluate_batch, authzen_discover,
}
use mcp_opa.Authzen.EvaluateLaws.{IsDecided, authzen_evaluate_iff}
use mcp_opa.Authzen.SendLaws.{SendsEvaluation, evaluate_requests}
use mcp_opa.Authzen.Numbering.{IsAligned}
use mcp_opa.Authzen.BatchLaws.{IsBatchDecided}
use mcp_opa.Authzen.Alignment.{decision-IsAligned}
use mcp_opa.Authzen.EntryLaws.{IsEvaluable}
use mcp_opa.Authzen.DiscoverLaws.{IsDiscovered, authzen_discover_iff}
use mcp_opa.Authzen.BatchResults.{authzen_evaluate_batch_iff}
use mcp_opa.Tests.Site.{site}
use mcp_opa.Tests.Configuration.{settings_config}

abbrev metadata_of : Bytes → PdpMetadata
metadata_of endpoint = record {
  policy_decision_point = codes "http://h";
  access_evaluation_endpoint = endpoint;
  access_evaluations_endpoint = [];
  search_subject_endpoint = [];
  search_resource_endpoint = [];
  search_action_endpoint = [];
  capabilities = [];
  signed_metadata = [];
  supported_evaluation_options = [];
}

abbrev nothing_asked : EvaluationRequest
nothing_asked = record { subject = []; action = []; resource = []; context = [] }

abbrev pub answers : Option Bool → EvaluationResponse
answers d = record { decision = d; context = codes "{}" }

abbrev decode_any : Bytes → Result Bytes Value
decode_any [] = err (codes "unexpected end")
decode_any (c ∷ s) = if equal (c ∷ []) (codes "{") then ok (object end) else ok (string (c ∷ s))

abbrev pub codec : Codec
codec = record {
  any = decode_any;
  members = λ raw.
      ok (some (("type", codes "user") ∷ ("id", codes "alice") ∷ ("name", codes "read") ∷ []));
  array = λ raw. ok (some (codes "{1}" ∷ codes "{2}" ∷ []));
  request = λ raw. ok nothing_asked;
  response = λ raw. if is_empty raw then err (codes "unexpected end") else ok (answers (some true));
  responses = λ raw. ok (record { evaluations = some (answers (some false) ∷ []) });
  metadata = λ raw. ok (metadata_of (codes "http://h/access/v1/evaluation"));
  encode = λ members. ok (codes "{}");
  encode_result = λ out. ok (codes "result");
}

abbrev pub asks : Request
asks = record {
  get_string = λ name missing.
      if str_eq name "subject"
        || str_eq name "action"
        || str_eq name "resource"
        || str_eq name "evaluations"
      then codes "{}"
      else missing;
  get_bool = λ name missing. missing;
}

abbrev pub serves : Network
serves req = response 200 none (record { content = codes "{}"; fault = none })

abbrev pub asked : EvaluationRequest
asked = record { subject = codes "{}"; action = codes "{}"; resource = codes "{}"; context = [] }

abbrev pub decided : Structured EvaluateOutput
decided = record {
  value = record {
    decision = true;
    context = codes "{}";
    pdp_url = codes "http://h/access/v1/evaluation";
    request_id = codes "mcp-opa-authz";
  };
  text = codes "result";
}

asks-decided : answer serves (authzen_evaluate site codec settings_config none asks) ≡ ok decided
unfolding answer authzen_evaluate resolve_endpoint validate_pdp_url validate_url
    read_evaluation_args json_object_arg as_json_object object_or_fault validate_entities
    require_members each_member require_member member text_or_fault post_json do_request receive
    read_response read_limited new_request_id report_evaluation structured_result equal
    evaluation_members
asks-decided = refl

authzen_evaluate_iff_example : IsDecided site codec settings_config none asks serves decided
authzen_evaluate_iff_example =
    (authzen_evaluate_iff site codec settings_config none asks serves decided).0 asks-decided

evaluate_requests_example :
    (requests serves (authzen_evaluate site codec settings_config none asks) ≡ [])
    ⊎ ((sent : HttpRequest) × (requests serves
            (authzen_evaluate site codec settings_config none asks)
          ≡ sent ∷ [])
        × SendsEvaluation site codec settings_config none asks sent)
evaluate_requests_example = evaluate_requests site codec settings_config none asks serves

asked-valid : validate_entities codec asked argument ≡ ok tt
unfolding validate_entities require_members each_member require_member member text_or_fault equal
asked-valid = refl

validate_entities_iff_example : IsAcceptable codec (codes "{}") subject
validate_entities_iff_example = (validate_entities_iff codec asked argument).0 asked-valid subject

read_evaluation_entries_iff_example :
    ReadsEntries codec asks settings_config asked (codes "{1}" ∷ codes "{2}" ∷ [])
read_evaluation_entries_iff_example =
    (read_evaluation_entries_iff codec asks settings_config asked
        (codes "{1}" ∷ codes "{2}" ∷ [])).0
      (unfold read_evaluation_entries optional_json bounded_entries check_entries check_entry
          as_json_object object_or_fault validate_entities require_members each_member
          require_member member text_or_fault first_present equal in
        refl)

abbrev pub batch : Structured BatchOutput
batch = record {
  value = record {
    decisions = record { index = 0; decision = false; context = codes "{}" } ∷ [];
    semantic = semantic_execute_all;
    truncated = true;
    pdp_url = codes "http://h/access/v1/evaluations";
    request_id = codes "mcp-opa-authz";
  };
  text = codes "result";
}

batch-decided :
    answer serves (authzen_evaluate_batch site codec settings_config none asks) ≡ ok batch
unfolding answer authzen_evaluate_batch batch_endpoint batch_endpoint_from root_of resolve_from_root
    strip_known has_suffix trim_suffix validate_pdp_url validate_url read_evaluation_args
    json_object_arg as_json_object object_or_fault validate_entities require_members each_member
    require_member member text_or_fault read_evaluation_entries optional_json bounded_entries
    check_entries check_entry first_present post_json do_request receive read_response read_limited
    new_request_id report_batch number_decisions structured_result equal evaluations_members
batch-decided = refl

authzen_evaluate_batch_iff_example :
    IsBatchDecided site codec settings_config none asks serves batch
authzen_evaluate_batch_iff_example =
    (authzen_evaluate_batch_iff site codec settings_config none asks serves batch).0 batch-decided

abbrev first_decision : BatchDecision
first_decision = record { index = 0; decision = false; context = codes "{}" }

decision-IsAligned_example :
    (b : IsBatchDecided site codec settings_config none asks serves batch) × IsAligned b.responses 0
      0 first_decision
    × (raw : RawMessage) × (get_elem? b.entries 0 ≡ some raw)
    × IsEvaluable codec b.defaults raw
decision-IsAligned_example =
    decision-IsAligned site codec settings_config none asks serves batch batch-decided 0
      first_decision refl

abbrev pub discovered : Structured DiscoverOutput
discovered = record {
  value = record {
    metadata_url = codes "http://h/.well-known/authzen-configuration";
    metadata = metadata_of (codes "http://h/access/v1/evaluation");
  };
  text = codes "result";
}

discovers : answer serves (authzen_discover site codec settings_config none asks) ≡ ok discovered
unfolding answer authzen_discover root_of resolve_from_root strip_known has_suffix trim_suffix
    validate_pdp_url validate_url get_json do_request receive read_response read_limited
    new_request_id report_metadata structured_result equal
discovers = refl

authzen_discover_iff_example : IsDiscovered site codec settings_config none asks serves discovered
authzen_discover_iff_example =
    (authzen_discover_iff site codec settings_config none asks serves discovered).0 discovers
