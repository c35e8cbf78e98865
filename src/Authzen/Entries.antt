-- ===== src/Authzen/Entries.antt =====
-- tool_authzen.go: `readEvaluationEntries`.
use mcp_opa.Base.{
  ℕ, ◌+◌, List, [], ◌∷◌, none, some, is_empty, if◌then◌else◌, length, ltb, Result, ok, err, ◌>>=◌,
  ◌>>◌, map_err, refuse_if,
}
use mcp_opa.Json.{RawMessage, RawArray}
use mcp_opa.Config.Load.{Config}
use mcp_opa.Args.Read.{Request, as_json_object, optional_json}
use mcp_opa.Pdp.Wire.{EvaluationRequest}
use mcp_opa.Authzen.Codec.{Codec}
use mcp_opa.Authzen.Entities.{
  Entity, subject, action, resource, entry, RequestError, bad_argument, no_evaluations,
  not_an_array, nothing_to_evaluate, too_many, entry_not_object, entry_not_request, no_fallback,
  entity_of, validate_entities, first_present,
}

abbrev pub max_batch_evaluations : ℕ
max_batch_evaluations = 100

-- What the decision point evaluates: the entry over the defaults.
abbrev pub effective : EvaluationRequest → EvaluationRequest → EvaluationRequest
effective own defaults = record {
  subject = first_present own.subject defaults.subject;
  action = first_present own.action defaults.action;
  resource = first_present own.resource defaults.resource;
  context = first_present own.context defaults.context;
}

abbrev pub require_present : ℕ → EvaluationRequest → Entity → Result RequestError (Unit {0})
require_present i r e = refuse_if (is_empty (entity_of r e)) (no_fallback i e)

-- One round of the loop.
unfoldable pub check_entry :
    Codec → EvaluationRequest → ℕ → RawMessage → Result RequestError (Unit {0})
check_entry codec defaults i raw = do
  object ← map_err (entry_not_object i) (as_json_object codec.any raw)
  own ← map_err (entry_not_request i) (codec.request raw)
  require_present i (effective own defaults) subject
  require_present i (effective own defaults) action
  require_present i (effective own defaults) resource
  validate_entities codec (effective own defaults) (entry i)

unfoldable pub check_entries :
    Codec → EvaluationRequest → ℕ → List RawMessage → Result RequestError (Unit {0})
check_entries codec defaults i [] = ok tt
check_entries codec defaults i (raw ∷ rest) = do
  check_entry codec defaults i raw
  check_entries codec defaults (i + 1) rest

unfoldable pub bounded_entries :
    Codec → EvaluationRequest → RawArray → Result RequestError (List RawMessage)
bounded_entries codec defaults none = err not_an_array
bounded_entries codec defaults (some entries) =
    if is_empty entries
    then err nothing_to_evaluate
    else if ltb max_batch_evaluations (length entries)
    then err (too_many (length entries))
    else (check_entries codec defaults 0 entries >> ok entries)

unfoldable pub read_evaluation_entries :
    Codec → Request → Config → EvaluationRequest → Result RequestError (List RawMessage)
read_evaluation_entries codec req cfg defaults = do
  decoded ← map_err bad_argument (optional_json codec.array req "evaluations" cfg.max_arg_bytes)
  elim decoded [ none ↦ err no_evaluations | some array ↦ bounded_entries codec defaults array ]
