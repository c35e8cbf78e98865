-- ===== src/Tests/Point.antt =====
-- The tools in front of a small decision point.
use mcp_opa.Base.{
  ℕ, some, ◌≡◌, refl, [], ◌∷◌, none, codes, ◌⊎◌, if◌then◌else◌, ok, equal, str_eq, arith,
}
use mcp_opa.Pdp.Wire.{EvaluationRequest}
use mcp_opa.Pdp.Exchange.{HttpRequest}
use mcp_opa.Authzen.Entities.{RequestError, entry_not_object, first_present}
use mcp_opa.Authzen.Handlers.{authzen_evaluate_batch}
use mcp_opa.Authzen.BatchSends.{SendsBatch, evaluate_batch_requests}
use mcp_opa.Authzen.Entities.{
  validate_entities, require_members, each_member, require_member, member, text_or_fault,
}
use mcp_opa.Authzen.Entries.{read_evaluation_entries, bounded_entries, check_entries, check_entry}
use mcp_opa.Authzen.Codec.{Codec}
use mcp_opa.Authzen.EntryErrors.{blamed, IsFirstBad, read_evaluation_entries-err}
use mcp_opa.Args.Read.{
  json_kind, not_object, Request, as_json_object, object_or_fault, optional_json,
}
use mcp_opa.Pdp.Exchange.{requests}
use mcp_opa.Tests.Site.{site}
use mcp_opa.Tests.Configuration.{settings_config}
use mcp_opa.Tests.Authzen.{asks}
use mcp_opa.Tests.Echo.{point_codec, echo}

abbrev pub asks_a : Request
asks_a = record {
  get_string =
      λ name missing. if str_eq name "subject" then codes "{a}" else asks.get_string name missing;
  get_bool = λ name missing. missing;
}

abbrev asked_a : EvaluationRequest
asked_a = record { subject = codes "{a}"; action = codes "{}"; resource = codes "{}"; context = [] }

abbrev own_a : EvaluationRequest
own_a = record { subject = codes "{a}"; action = []; resource = []; context = [] }

evaluate_batch_requests_example :
    (requests echo (authzen_evaluate_batch site point_codec settings_config none asks_a) ≡ [])
    ⊎ ((sent : HttpRequest) × (requests echo
            (authzen_evaluate_batch site point_codec settings_config none asks_a)
          ≡ sent ∷ [])
        × SendsBatch site point_codec settings_config none asks_a sent)
evaluate_batch_requests_example =
    evaluate_batch_requests site point_codec settings_config none asks_a echo

-- The second entry is no object.
abbrev mixed_codec : Codec
mixed_codec = record point_codec {
  array = λ raw. ok (some (codes "{a}" ∷ codes "b" ∷ codes "c" ∷ []));
}

abbrev second_fault : RequestError
second_fault = entry_not_object 1 (not_object "a string")

read_evaluation_entries-err_example :
    (k : ℕ) × (blamed second_fault ≡ some k)
    × IsFirstBad mixed_codec asked_a (codes "{a}" ∷ codes "b" ∷ codes "c" ∷ []) k
read_evaluation_entries-err_example =
    read_evaluation_entries-err mixed_codec asks_a settings_config asked_a
      (codes "{a}" ∷ codes "b" ∷ codes "c" ∷ []) second_fault (unfold optional_json in refl)
      (omega arith) (omega arith)
      (unfold read_evaluation_entries optional_json bounded_entries check_entries check_entry
          as_json_object object_or_fault validate_entities require_members each_member
          require_member member text_or_fault first_present equal json_kind in
        refl)
