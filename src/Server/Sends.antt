-- ===== src/Server/Sends.antt =====
-- What a call of any tool sends.
use mcp_opa.Base.{◌≡◌, ◌⊎◌, inl, inr, refl, ◌∙◌, List, [], ◌∷◌, Option, Bytes, Result-cases}
use mcp_opa.Config.Load.{Config}
use mcp_opa.Args.Read.{Request}
use mcp_opa.Pdp.Url.{UrlPackage, Url}
use mcp_opa.Pdp.Endpoint.{Accepts}
use mcp_opa.Pdp.Roots.{UrlLaws}
use mcp_opa.Pdp.Exchange.{
  HttpRequest, Exchange, done, ◌>>=◌, relabel, Network, requests, requests->>=_quiet,
  requests-relabel,
}
use mcp_opa.Pdp.Client.{post_headers, get_headers, new_request_id}
use mcp_opa.Authzen.Handlers.{authzen_evaluate, authzen_evaluate_batch, authzen_discover}
use mcp_opa.Authzen.SendLaws.{evaluate_requests}
use mcp_opa.Authzen.BatchSends.{evaluate_batch_requests}
use mcp_opa.Authzen.DiscoverSends.{discover_requests}
use mcp_opa.Opa.Evaluate.{evaluate_policy}
use mcp_opa.Server.Calls.{
  Libraries, authzen_failed, decided, batched, discovered, Tool, evaluate_policy_tool,
  authzen_evaluate_tool, authzen_evaluate_batch_tool, authzen_discover_tool, handler, handle_policy,
  handle_evaluate, handle_batch, handle_discover,
}

-- A request to an accepted endpoint, with the headers of a call and no others.
pub record IsProper (urls : UrlPackage) (cfg : Config) (entropy : Option Bytes) (sent : HttpRequest)
    : Type 0 where
  pub url : Url
  pub accepted : Accepts urls sent.url url
  pub as_call :
      ((sent.method ≡ "POST")
        × (sent.headers ≡ post_headers cfg.pdp_token (new_request_id entropy)))
      ⊎ ((sent.method ≡ "GET")
          × (sent.headers ≡ get_headers cfg.pdp_token (new_request_id entropy))
          × (sent.body ≡ []))

-- Nothing, or one proper request.
abbrev pub SendsOne : UrlPackage → Config → Option Bytes → List HttpRequest → Type 0
SendsOne urls cfg entropy sent =
    (sent ≡ []) ⊎ ((one : HttpRequest) × (sent ≡ one ∷ []) × IsProper urls cfg entropy one)

module _ {E F A B : Type 0} (net : Network) (report : E → F) (m : Exchange E A) (k : A → B) where
  requests-reported : requests net (relabel report m >>= λ a. done (k a)) ≡ requests net m
  requests-reported =
      requests->>=_quiet net (λ a. done (k a)) (relabel report m) (λ a. unfold requests in refl)
      ∙ requests-relabel net report m

SendsOne-subst :
    (urls : UrlPackage) (cfg : Config) (entropy : Option Bytes) {sent sent' : List HttpRequest}
    → sent ≡ sent'
    → SendsOne urls cfg entropy sent'
    → SendsOne urls cfg entropy sent
SendsOne-subst urls cfg entropy e (inl none_sent) = inl (e ∙ none_sent)
SendsOne-subst urls cfg entropy e (inr (one, same, proper)) = inr (one, e ∙ same, proper)

module _ {Decl Rest Event : Type 0} (libs : Libraries Decl Rest Event) (cfg : Config)
    (entropy : Option Bytes) (req : Request) (net : Network) where
  policy_requests : requests net (handle_policy libs cfg entropy req) ≡ []
  unfolding handle_policy requests
  policy_requests =
      elim (Result-cases
        (evaluate_policy libs.engine libs.base libs.pretty libs.opa_codec cfg req)) [
          | inl (e, bad) ↦ rw bad refl
          | inr (out, good) ↦ rw good refl
        ]

  evaluate_sends :
      SendsOne libs.urls cfg entropy
        (requests net (authzen_evaluate libs.urls libs.codec cfg entropy req))
  evaluate_sends = elim (evaluate_requests libs.urls libs.codec cfg entropy req net) [
    | inl silent ↦ inl silent
    | inr (one, same, s) ↦ inr (
      one,
      same,
      record {
        url = s.url;
        accepted = rw s.sent_is s.accepted;
        as_call = inl (rw s.sent_is refl, rw s.sent_is refl);
      },
    )
  ]

  batch_sends :
      SendsOne libs.urls cfg entropy
        (requests net (authzen_evaluate_batch libs.urls libs.codec cfg entropy req))
  batch_sends = elim (evaluate_batch_requests libs.urls libs.codec cfg entropy req net) [
    | inl silent ↦ inl silent
    | inr (one, same, s) ↦ inr (
      one,
      same,
      record {
        url = s.url;
        accepted = rw s.sent_is s.accepted;
        as_call = inl (rw s.sent_is refl, rw s.sent_is refl);
      },
    )
  ]

  discover_sends :
      UrlLaws libs.urls
      → SendsOne libs.urls cfg entropy
          (requests net (authzen_discover libs.urls libs.codec cfg entropy req))
  discover_sends laws = elim (discover_requests libs.urls laws libs.codec cfg entropy req net) [
    | inl silent ↦ inl silent
    | inr (u, url, a, site, same) ↦ inr (
      _,
      same,
      record {
        url = site.url;
        accepted = (site.parses, site.is_endpoint);
        as_call = inr (refl, refl, refl);
      },
    )
  ]

  -- Whatever the request and the network's replies, a call of a tool sends nothing, or one request: to
  -- an http(s) URL with a host and no user, as a POST or as a GET without a body, with the request id
  -- and the configured token in its headers; and evaluate_policy sends nothing.
  pub handler-SendsOne :
      UrlLaws libs.urls
      → (t : Tool)
      → SendsOne libs.urls cfg entropy (requests net (handler libs cfg t entropy req))
        × (t ≡ evaluate_policy_tool → requests net (handler libs cfg t entropy req) ≡ [])
  unfolding handle_evaluate handle_batch handle_discover
  handler-SendsOne laws evaluate_policy_tool = (inl policy_requests, λ e. policy_requests)
  handler-SendsOne laws authzen_evaluate_tool = (
    SendsOne-subst libs.urls cfg entropy
        (requests-reported net authzen_failed
          (authzen_evaluate libs.urls libs.codec cfg entropy req) decided)
        evaluate_sends,
    λ e. cc,
  )
  handler-SendsOne laws authzen_evaluate_batch_tool = (
    SendsOne-subst libs.urls cfg entropy
        (requests-reported net authzen_failed
          (authzen_evaluate_batch libs.urls libs.codec cfg entropy req) batched)
        batch_sends,
    λ e. cc,
  )
  handler-SendsOne laws authzen_discover_tool = (
    SendsOne-subst libs.urls cfg entropy
        (requests-reported net authzen_failed
          (authzen_discover libs.urls libs.codec cfg entropy req) discovered)
        (discover_sends laws),
    λ e. cc,
  )
