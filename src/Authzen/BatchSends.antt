-- ===== src/Authzen/BatchSends.antt =====
-- What authzen_evaluate_batch sends.
use mcp_opa.Base.{
  ◌≡◌, ◌⊎◌, inl, inr, refl, ap, ◌∙◌, [], ◌∷◌, Bool, true, false, not, Option, Bytes, ok, err,
  ok-injective, subst, ltb, Option-cases, ℕ, is_empty, if◌then◌else◌, List, Result-cases, >>=-eq-ok,
  any, codes, some, equal, refuse_if, length, Bool-cases,
}
use mcp_opa.Base.Results
use mcp_opa.Json.{RawMessage}
use mcp_opa.Config.Load.{Config}
use mcp_opa.Args.Read.{Request}
use mcp_opa.Pdp.Wire.{
  Members, raws, text_object, part_named, EvaluationRequest, EvaluationsResponse,
  evaluations_members,
}
use mcp_opa.Pdp.Url.{UrlPackage, Url, batch_endpoint_from, validate_pdp_url}
use mcp_opa.Pdp.Endpoint.{Accepts, validate_pdp_url_sound}
use mcp_opa.Pdp.Exchange.{
  ◌>>=◌, HttpRequest, relabel, Network, requests, attempt->>=_of_ok, attempt->>=_of_err,
  requests->>=_quiet, requests-relabel,
}
use mcp_opa.Pdp.Client.{post_json, post_request, new_request_id}
use mcp_opa.Pdp.Calls.{requests-post_json}
use mcp_opa.Authzen.Codec.{encode_batch, Codec, BatchOutput}
use mcp_opa.Authzen.Entities.{read_evaluation_args}
use mcp_opa.Authzen.RequestLaws.{ReadsArguments, read_evaluation_args_sound}
use mcp_opa.Authzen.Entries.{read_evaluation_entries}
use mcp_opa.Authzen.EntryLaws.{ReadsEntries, read_evaluation_entries_iff}
use mcp_opa.Authzen.EvaluateLaws.{requests-structured_result}
use mcp_opa.Authzen.Handlers.{
  Handler, pdp, batch_endpoint, batch_body, semantics, report_batch, number_decisions,
  authzen_evaluate_batch,
}
use mcp_opa.Authzen.BatchLaws.{asked_semantic}
use mcp_opa.Authzen.BatchBody.{
  Carries, body_sent, body_sent-behind, subject-Carries, action-Carries, resource-Carries,
  context-Carries, options_sent, semantics-IsSemantic, IsSemantic-present,
}

-- An endpoint that is accepted for a batch, given or derived, is one that a request may go to.
pub batch_endpoint-Accepts :
    (urls : UrlPackage) (configured override : Bytes) {endpoint : Bytes}
    → batch_endpoint urls configured override ≡ ok endpoint
    → (u : Url) × Accepts urls endpoint u
unfolding batch_endpoint
batch_endpoint-Accepts urls configured override {endpoint} h =
    let chosen = if is_empty override then batch_endpoint_from urls configured else ok override in
    let (e, found, rest) =
      >>=-eq-ok chosen (λ e. Results.◌>>◌ (validate_pdp_url urls e) (ok e)) h in
    let (checked, valid, same) = >>=-eq-ok (validate_pdp_url urls e) (λ u. ok e) rest in
    let (u, a) = validate_pdp_url_sound urls e valid in
    subst (λ e. (u : Url) × Accepts urls e u) (ok-injective same) (u, a)

-- What a batch sends to an accepted endpoint: its defaults, its one to a hundred entries, each of which
-- can be evaluated over them, and one of the three semantics.
pub record SendsBatch (urls : UrlPackage) (codec : Codec) (cfg : Config) (entropy : Option Bytes)
    (req : Request) (sent : HttpRequest) : Type 0 where
  pub endpoint : Bytes
  pub url : Url
  pub accepted : Accepts urls endpoint url
  pub defaults : EvaluationRequest
  pub reads : ReadsArguments codec req cfg false defaults
  pub entries : List RawMessage
  pub reads_entries : ReadsEntries codec req cfg defaults entries
  pub body : Members
  pub subject_sent : Carries body "subject" defaults.subject
  pub action_sent : Carries body "action" defaults.action
  pub resource_sent : Carries body "resource" defaults.resource
  pub context_sent : Carries body "context" defaults.context
  pub entries_sent : part_named "evaluations" body ≡ some (raws entries)
  pub semantic : Bytes
  pub semantic_asked : semantic ≡ req.get_string "evaluations_semantic" (codes "execute_all")
  pub semantic_known :
      (semantic ≡ codes "execute_all")
      ⊎ (semantic ≡ codes "deny_on_first_deny")
      ⊎ (semantic ≡ codes "permit_on_first_permit")
  pub semantic_sent : part_named "options" body ≡ some (text_object "evaluations_semantic" semantic)
  pub encoded : Bytes
  pub encodes : codec.encode body ≡ ok encoded
  pub sent_is : sent ≡ post_request cfg (new_request_id entropy) endpoint encoded

module _ (codec : Codec) (net : Network) (endpoint : Bytes) (sent : ℕ) (semantic : Bytes) where
  requests-report_batch :
      (reply : Bytes × EvaluationsResponse)
      → requests net (report_batch codec endpoint sent semantic reply) ≡ []
  unfolding report_batch requests
  requests-report_batch (id, decoded) = elim (Option-cases decoded.evaluations) [
    | inl missing ↦ rw (missing, report_batch) refl
    | inr (es, found) ↦ elim (Bool-cases (ltb sent (length es))) [
      | inl more ↦ rw (found, more, report_batch) refl
      | inr fits ↦ elim (Result-cases (number_decisions 0 es)) [
        | inl (i, bad) ↦ rw (found, fits, bad, report_batch) refl
        | inr (ds, good) ↦
            rw (found, fits, good, report_batch)
              (requests-structured_result (encode_batch codec) net _)
      ]
    ]
  ]

refuse-eq-ok :
    (b : Bool) (s : Bytes)
    → (refuse_if (not b) s ≡ err s) ⊎ ((b ≡ true) × (refuse_if (not b) s ≡ ok tt))
refuse-eq-ok true s = inr (refl, refl)
refuse-eq-ok false s = inl refl

module _ (urls : UrlPackage) (codec : Codec) (cfg : Config) (entropy : Option Bytes) (req : Request)
    (net : Network) where
  abbrev after_semantic : Bytes → EvaluationRequest → List RawMessage → Handler BatchOutput
  after_semantic endpoint defaults entries =
      relabel pdp (
        post_json urls codec.encode codec.responses cfg entropy endpoint
          (evaluations_members (batch_body defaults entries (asked_semantic req))))
      >>= report_batch codec endpoint (length entries) (asked_semantic req)

  after_semantic-sends :
      (endpoint : Bytes) (u : Url) (defaults : EvaluationRequest) (entries : List RawMessage)
      → urls.parse endpoint ≡ ok u
      → (requests net (after_semantic endpoint defaults entries) ≡ [])
        ⊎ ((encoded : Bytes) × (codec.encode
                (evaluations_members (batch_body defaults entries (asked_semantic req)))
              ≡ ok encoded)
            × (requests net (after_semantic endpoint defaults entries)
                ≡ post_request cfg (new_request_id entropy) endpoint encoded ∷ []))
  after_semantic-sends endpoint u defaults entries parsed =
      let members = evaluations_members (batch_body defaults entries (asked_semantic req)) in
      let post = post_json urls codec.encode codec.responses cfg entropy endpoint members in
      let quiet =
        requests->>=_quiet net (report_batch codec endpoint (length entries) (asked_semantic req))
          (relabel pdp post)
          (λ reply.
            requests-report_batch codec net endpoint (length entries) (asked_semantic req) reply)
        ∙ requests-relabel net pdp post in
      elim (requests-post_json urls codec.encode codec.responses cfg entropy endpoint members net u
        parsed) [
          | inl silent ↦ inl (quiet ∙ silent)
          | inr (encoded, encodes, one) ↦ inr (encoded, encodes, quiet ∙ one)
        ]

  -- A call of authzen_evaluate_batch sends nothing, or one request: to an accepted endpoint, made of
  -- the defaults that were read, of one to a hundred entries each of which names complete entities over
  -- the defaults, and of one of the three semantics.
  pub evaluate_batch_requests :
      (requests net (authzen_evaluate_batch urls codec cfg entropy req) ≡ [])
      ⊎ ((sent : HttpRequest) × (requests net (authzen_evaluate_batch urls codec cfg entropy req)
            ≡ sent ∷ [])
          × SendsBatch urls codec cfg entropy req sent)
  unfolding authzen_evaluate_batch
  evaluate_batch_requests =
      elim (Result-cases (batch_endpoint urls cfg.pdp_url (req.get_string "pdp_url" []))) [
        | inl (e, bad) ↦
            inl (ap (requests net) (attempt->>=_of_err _ _ bad) ∙ unfold requests in refl)
        | inr (endpoint, resolved) ↦
            elim (Result-cases (read_evaluation_args codec req cfg false)) [
              | inl (e, bad) ↦ inl (
                  ap (requests net) (attempt->>=_of_ok _ _ resolved)
                  ∙ ap (requests net) (attempt->>=_of_err _ _ bad)
                  ∙ unfold requests in refl)
              | inr (defaults, read) ↦
                  elim (Result-cases (read_evaluation_entries codec req cfg defaults)) [
                    | inl (e, bad) ↦ inl (
                        ap (requests net) (attempt->>=_of_ok _ _ resolved)
                        ∙ ap (requests net) (attempt->>=_of_ok _ _ read)
                        ∙ ap (requests net) (attempt->>=_of_err _ _ bad)
                        ∙ unfold requests in refl)
                    | inr (entries, listed) ↦
                        let start =
                          ap (requests net) (attempt->>=_of_ok _ _ resolved)
                          ∙ ap (requests net) (attempt->>=_of_ok _ _ read)
                          ∙ ap (requests net) (attempt->>=_of_ok _ _ listed) in
                        elim (refuse-eq-ok (any (equal (asked_semantic req)) semantics)
                          (asked_semantic req)) [
                            | inl foreign ↦ inl (
                                start
                                ∙ ap (requests net) (attempt->>=_of_err _ _ foreign)
                                ∙ unfold requests in refl)
                            | inr (known, passes) ↦
                                let (u, accepted) =
                                  batch_endpoint-Accepts urls cfg.pdp_url
                                    (req.get_string "pdp_url" []) resolved in
                                let named = semantics-IsSemantic (asked_semantic req) known in
                                let later =
                                  start ∙ ap (requests net) (attempt->>=_of_ok _ _ passes) in
                                elim (after_semantic-sends endpoint u defaults entries accepted.0) [
                                  | inl silent ↦ inl (later ∙ silent)
                                  | inr (encoded, encodes, one) ↦ inr (
                                    post_request cfg (new_request_id entropy) endpoint encoded,
                                    later ∙ one,
                                    record {
                                      endpoint = endpoint;
                                      url = u;
                                      accepted = accepted;
                                      defaults = defaults;
                                      reads =
                                          read_evaluation_args_sound codec req cfg false defaults
                                            read;
                                      entries = entries;
                                      reads_entries =
                                          (read_evaluation_entries_iff codec req cfg defaults
                                              entries).0
                                            listed;
                                      body = body_sent defaults entries (asked_semantic req);
                                      subject_sent =
                                          subject-Carries defaults entries (asked_semantic req);
                                      action_sent =
                                          action-Carries defaults entries (asked_semantic req);
                                      resource_sent =
                                          resource-Carries defaults entries (asked_semantic req);
                                      context_sent =
                                          context-Carries defaults entries (asked_semantic req);
                                      entries_sent =
                                          body_sent-behind defaults entries (asked_semantic req)
                                            "evaluations" refl refl refl refl;
                                      semantic = asked_semantic req;
                                      semantic_asked = refl;
                                      semantic_known = named;
                                      semantic_sent =
                                          options_sent defaults entries (asked_semantic req)
                                            (IsSemantic-present _ named);
                                      encoded = encoded;
                                      encodes = encodes;
                                      sent_is = refl;
                                    },
                                  )
                                ]
                          ]
                  ]
            ]
      ]
