-- ===== src/Authzen/SendLaws.antt =====
-- What authzen_evaluate sends.
use mcp_opa.Base.{◌≡◌, ◌⊎◌, inl, inr, refl, ap, ◌∙◌, true, [], ◌∷◌, Option, Bytes, ok, Result-cases}
use mcp_opa.Config.Load.{Config}
use mcp_opa.Args.Read.{Request}
use mcp_opa.Pdp.Wire.{EvaluationRequest, evaluation_members}
use mcp_opa.Pdp.Url.{UrlPackage, Url, resolve_endpoint}
use mcp_opa.Pdp.Endpoint.{Accepts, resolve_endpoint_iff}
use mcp_opa.Pdp.Exchange.{
  HttpRequest, relabel, Network, requests, attempt->>=_of_ok, attempt->>=_of_err,
  requests->>=_quiet, requests-relabel,
}
use mcp_opa.Pdp.Client.{post_json, post_request, new_request_id}
use mcp_opa.Pdp.Calls.{requests-post_json}
use mcp_opa.Authzen.Codec.{Codec}
use mcp_opa.Authzen.Entities.{Entity, entity_of, read_evaluation_args}
use mcp_opa.Authzen.EntityLaws.{IsComplete}
use mcp_opa.Authzen.RequestLaws.{
  ReadsArguments, read_evaluation_args_sound, ReadsArguments-IsComplete,
}
use mcp_opa.Authzen.Handlers.{pdp, report_evaluation, authzen_evaluate}
use mcp_opa.Authzen.EvaluateLaws.{requests-report_evaluation}

-- What a call sends: the encoded members of complete entities, to an accepted endpoint.
pub record SendsEvaluation (urls : UrlPackage) (codec : Codec) (cfg : Config)
    (entropy : Option Bytes) (req : Request) (sent : HttpRequest) : Type 0 where
  pub endpoint : Bytes
  pub url : Url
  pub accepted : Accepts urls endpoint url
  pub body : EvaluationRequest
  pub reads : ReadsArguments codec req cfg true body
  pub complete : (e : Entity) → IsComplete codec (entity_of body e) e
  pub encoded : Bytes
  pub encodes : codec.encode (evaluation_members body) ≡ ok encoded
  pub sent_is : sent ≡ post_request cfg (new_request_id entropy) endpoint encoded

module _ (urls : UrlPackage) (codec : Codec) (cfg : Config) (entropy : Option Bytes) (req : Request)
    (net : Network) where
  -- A call of authzen_evaluate sends nothing, or one request: to an endpoint that is accepted, made
  -- of the members of arguments that were read, each entity of which is complete.
  pub evaluate_requests :
      (requests net (authzen_evaluate urls codec cfg entropy req) ≡ [])
      ⊎ ((sent : HttpRequest) × (requests net (authzen_evaluate urls codec cfg entropy req)
            ≡ sent ∷ [])
          × SendsEvaluation urls codec cfg entropy req sent)
  unfolding authzen_evaluate
  evaluate_requests =
      elim (Result-cases (resolve_endpoint urls cfg.pdp_url (req.get_string "pdp_url" []))) [
        | inl (e, bad) ↦
            inl (ap (requests net) (attempt->>=_of_err _ _ bad) ∙ unfold requests in refl)
        | inr (endpoint, good) ↦ elim (Result-cases (read_evaluation_args codec req cfg true)) [
          | inl (e, bad) ↦ inl (
              ap (requests net) (attempt->>=_of_ok _ _ good)
              ∙ ap (requests net) (attempt->>=_of_err _ _ bad)
              ∙ unfold requests in refl)
          | inr (body, read) ↦
              let post =
                post_json urls codec.encode codec.response cfg entropy endpoint
                  (evaluation_members body) in
              let start =
                ap (requests net) (attempt->>=_of_ok _ _ good)
                ∙ ap (requests net) (attempt->>=_of_ok _ _ read)
                ∙ requests->>=_quiet net (report_evaluation codec endpoint) (relabel pdp post)
                    (λ reply. requests-report_evaluation codec net endpoint reply.0 reply.1)
                ∙ requests-relabel net pdp post in
              let (same, full, (u, accepted)) =
                (resolve_endpoint_iff urls cfg.pdp_url (req.get_string "pdp_url" []) endpoint).0
                  good in
              let reads = read_evaluation_args_sound codec req cfg true body read in
              elim (requests-post_json urls codec.encode codec.response cfg entropy endpoint
                (evaluation_members body) net u accepted.0) [
                  | inl silent ↦ inl (start ∙ silent)
                  | inr (encoded, encodes, one) ↦ inr (
                    post_request cfg (new_request_id entropy) endpoint encoded,
                    start ∙ one,
                    record {
                      endpoint = endpoint;
                      url = u;
                      accepted = accepted;
                      body = body;
                      reads = reads;
                      complete = ReadsArguments-IsComplete reads;
                      encoded = encoded;
                      encodes = encodes;
                      sent_is = refl;
                    },
                  )
                ]
        ]
      ]
