-- ===== src/Authzen/Handlers.antt =====
-- tool_authzen.go: `authzenEvaluate`, `authzenEvaluateBatch`, `authzenDiscover` and
-- `structuredResult`. A handler ends with a structured result or an error result. The argument
-- `entropy` is what `rand.Read` gives for the request id of the call.
use mcp_opa.Base.{
  ℕ, ◌+◌, Bool, true, false, List, [], ◌∷◌, Option, none, some, Bytes, is_empty, if◌then◌else◌,
  length, ltb, equal, any, Result, ok, err, refuse_if, not,
}
use mcp_opa.Base.Results
use mcp_opa.Json.{Encode, RawMessage}
use mcp_opa.Config.Load.{Config}
use mcp_opa.Args.Read.{Request}
use mcp_opa.Pdp.Wire.{
  EvaluationRequest, EvaluationResponse, EvaluationsRequest, EvaluationsResponse, PdpMetadata,
  evaluation_members, evaluations_members, semantic_execute_all, semantic_deny_on_first_deny,
  semantic_permit_on_first_perm, path_metadata,
}
use mcp_opa.Pdp.Url.{
  UrlPackage, UrlError, validate_pdp_url, resolve_endpoint, batch_endpoint_from, root_of,
  resolve_from_root,
}
use mcp_opa.Pdp.Exchange.{Exchange, done, failed, ◌>>=◌, ◌>>◌, attempt, relabel}
use mcp_opa.Pdp.Client.{PdpError, bad_endpoint, post_json, get_json}
use mcp_opa.Authzen.Codec.{
  encode_batch, encode_discover, encode_evaluate, Codec, EvaluateOutput, BatchDecision, BatchOutput,
  DiscoverOutput,
}
use mcp_opa.Authzen.Entities.{RequestError, read_evaluation_args}
use mcp_opa.Authzen.Entries.{read_evaluation_entries}

-- The error results of the three tools. Texts are kept as what they are made of.
pub data ToolError : Type 0 where
  pdp : PdpError → ToolError
  bad_request : RequestError → ToolError
  no_pdp_url : ToolError
  bad_semantic : Bytes → ToolError
  no_decision : Bytes → Bytes → ToolError
  no_decisions : Bytes → Bytes → ToolError
  extra_decisions : ℕ → ℕ → Bytes → Bytes → ToolError
  entry_no_decision : ℕ → Bytes → Bytes → ToolError
  not_a_pdp : Bytes → ToolError
  encode_result : Bytes → ToolError

-- A result as a value and as its text.
pub record Structured (A : Type 0) : Type 0 where
  pub value : A
  pub text : Bytes

abbrev pub Handler : Type 0 → Type 0
Handler A = Exchange ToolError (Structured A)

unfoldable pub structured_result : {A : Type 0} → Encode A → A → Handler A
structured_result encode v = elim (encode v) [
  | ok text ↦ done (record { value = v; text = text })
  | err e ↦ failed (encode_result e)
]

abbrev pub url_step : {A : Type 0} → Result UrlError A → Exchange ToolError A
url_step m = attempt (λ e. pdp (bad_endpoint e)) m

abbrev pub semantics : List Bytes
semantics = semantic_execute_all ∷ semantic_deny_on_first_deny ∷ semantic_permit_on_first_perm ∷ []

-- The loop over the decisions of a batch: each gets its index, and the first without a decision
-- ends the loop.
unfoldable pub number_decisions : ℕ → List EvaluationResponse → Result ℕ (List BatchDecision)
number_decisions i [] = ok []
number_decisions i (e ∷ es) =
    let rest = number_decisions (i + 1) es in
    elim e.decision [
      | none ↦ err i
      | some d ↦ elim rest [
        | err j ↦ err j
        | ok ds ↦ ok (record { index = i; decision = d; context = e.context } ∷ ds)
      ]
    ]

-- The plural endpoint: the argument, or the one that is derived from the configured URL.
unfoldable pub batch_endpoint : UrlPackage → Bytes → Bytes → Result UrlError Bytes
batch_endpoint urls configured override =
    let derived = batch_endpoint_from urls configured in
    Results.◌>>=◌ (if is_empty override then derived else ok override)
      λ endpoint. Results.◌>>◌ (validate_pdp_url urls endpoint) (ok endpoint)

abbrev pub evaluate_output : Bytes → Bytes → Bool → RawMessage → EvaluateOutput
evaluate_output endpoint id decision context = record {
  decision = decision;
  context = context;
  pdp_url = endpoint;
  request_id = id;
}

abbrev pub batch_body : EvaluationRequest → List RawMessage → Bytes → EvaluationsRequest
batch_body defaults entries semantic = record {
  subject = defaults.subject;
  action = defaults.action;
  resource = defaults.resource;
  context = defaults.context;
  evaluations = entries;
  options = some (record { semantic = semantic });
}

module _ (codec : Codec) where
  -- What follows the reply: a body without a decision is a failure, never a deny.
  unfoldable pub report_evaluation : Bytes → Bytes × EvaluationResponse → Handler EvaluateOutput
  report_evaluation endpoint (id, decoded) = elim decoded.decision [
    | none ↦ failed (no_decision endpoint id)
    | some d ↦
        structured_result (encode_evaluate codec) (evaluate_output endpoint id d decoded.context)
  ]

  -- What follows the reply to a batch of that many entries.
  unfoldable pub report_batch :
      Bytes → ℕ → Bytes → Bytes × EvaluationsResponse → Handler BatchOutput
  report_batch endpoint sent semantic (id, decoded) = elim decoded.evaluations [
    | none ↦ failed (no_decisions endpoint id)
    | some es ↦
        if ltb sent (length es)
        then failed (extra_decisions (length es) sent endpoint id)
        else elim (number_decisions 0 es) [
          | err i ↦ failed (entry_no_decision i endpoint id)
          | ok ds ↦ structured_result (encode_batch codec) (record {
            decisions = ds;
            semantic = semantic;
            truncated = ltb (length ds) sent;
            pdp_url = endpoint;
            request_id = id;
          })
        ]
  ]

  unfoldable pub report_metadata : Bytes → PdpMetadata → Handler DiscoverOutput
  report_metadata url meta =
      if is_empty meta.access_evaluation_endpoint
      then failed (not_a_pdp url)
      else structured_result (encode_discover codec)
          (record { metadata_url = url; metadata = meta })

module _ (urls : UrlPackage) (codec : Codec) (cfg : Config) (entropy : Option Bytes)
    (req : Request) where
  unfoldable pub authzen_evaluate : Handler EvaluateOutput
  authzen_evaluate = do
    endpoint ← url_step (resolve_endpoint urls cfg.pdp_url (req.get_string "pdp_url" []))
    body ← attempt bad_request (read_evaluation_args codec req cfg true)
    decoded ←
        relabel pdp (
          post_json urls codec.encode codec.response cfg entropy endpoint (evaluation_members body))
    report_evaluation codec endpoint decoded

  unfoldable pub authzen_evaluate_batch : Handler BatchOutput
  authzen_evaluate_batch = do
    endpoint ← url_step (batch_endpoint urls cfg.pdp_url (req.get_string "pdp_url" []))
    defaults ← attempt bad_request (read_evaluation_args codec req cfg false)
    entries ← attempt bad_request (read_evaluation_entries codec req cfg defaults)
    let semantic = req.get_string "evaluations_semantic" semantic_execute_all
    attempt bad_semantic (refuse_if (not (any (equal semantic) semantics)) semantic)
    decoded ← relabel pdp (
        post_json urls codec.encode codec.responses cfg entropy endpoint
          (evaluations_members (batch_body defaults entries semantic)))
    report_batch codec endpoint (length entries) semantic decoded

  unfoldable pub authzen_discover : Handler DiscoverOutput
  authzen_discover = do
    let override = req.get_string "pdp_url" []
    let raw = if is_empty override then cfg.pdp_url else override
    attempt (λ e. e) (refuse_if (is_empty raw) no_pdp_url)
    root ← url_step (root_of urls raw)
    url ← url_step (resolve_from_root urls root path_metadata)
    meta ← relabel pdp (get_json urls codec.metadata cfg entropy url)
    report_metadata codec url meta
