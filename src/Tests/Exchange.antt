-- ===== src/Tests/Exchange.antt =====
-- Endpoints, the requests to a decision point and its replies.
use mcp_opa.Base.{
  arith, true, false, ◌≡◌, ◌≢◌, refl, [], ◌∷◌, none, some, Bytes, codes, ok, err, equal,
}
use mcp_opa.Text.Suffix.{has_suffix-append, has_suffix, trim_suffix}
use mcp_opa.Text.Search.{cut, to_lower}
use mcp_opa.Text.Trim.{trim_space}
use mcp_opa.Pdp.Url.{
  Url, validate_url, validate_pdp_url, strip_known, root_of, resolve_from_root, batch_endpoint_from,
  resolve_endpoint,
}
use mcp_opa.Pdp.Endpoint.{Accepts, resolve_endpoint_iff}
use mcp_opa.Pdp.Roots.{SameSite}
use mcp_opa.Pdp.Known.{EndsNotIn, evaluation, batch_endpoint_from-SameSite, root_of_unknown}
use mcp_opa.Pdp.Exchange.{HttpRequest, response, Network, answer}
use mcp_opa.Pdp.Client.{
  has_auth_scheme, set_auth, set_header, do_request, receive, read_response, read_limited,
  redirected,
}
use mcp_opa.Pdp.Auth.{IsAuthorized, set_auth-IsAuthorized}
use mcp_opa.Pdp.Reply.{Delivers, do_request_iff}
use mcp_opa.Tests.Site.{site, at, site-UrlLaws, at-IsEndpoint}

abbrev pub endpoint : Bytes
endpoint = codes "http://h/pdp/access/v1/evaluation"

abbrev endpoint_path : Bytes
endpoint_path = codes "/pdp/access/v1/evaluation"

pub endpoint-Accepts : Accepts site endpoint (at endpoint_path)
endpoint-Accepts = (refl, at-IsEndpoint endpoint_path)

resolve_endpoint_iff_example :
    (endpoint ≡ endpoint) × (endpoint ≢ []) × ((u : Url) × Accepts site endpoint u)
resolve_endpoint_iff_example =
    (resolve_endpoint_iff site endpoint [] endpoint).0
      (unfold resolve_endpoint validate_pdp_url validate_url equal in refl)

-- The batch endpoint of a decision point that is mounted under a prefix.
batch_endpoint : batch_endpoint_from site endpoint ≡ ok (codes "http://h/pdp/access/v1/evaluations")
unfolding batch_endpoint_from root_of resolve_from_root validate_pdp_url validate_url strip_known
    equal trim_suffix has_suffix
batch_endpoint = refl

batch_endpoint_from-SameSite_example :
    (derived : Bytes) × (batch_endpoint_from site endpoint ≡ ok derived)
    × SameSite site (at endpoint_path) derived (codes "/pdp/access/v1/evaluations")
batch_endpoint_from-SameSite_example =
    batch_endpoint_from-SameSite site site-UrlLaws endpoint (at endpoint_path) (codes "/pdp")
      (λ e. cc) endpoint-Accepts evaluation refl (unfold has_suffix equal in refl)

ends_not : (s suffix : Bytes) → has_suffix s suffix ≡ false → EndsNotIn s suffix
ends_not s suffix h front e =
    let ends : has_suffix s suffix ≡ true = rw e (has_suffix-append front suffix) in ground arith

root_of_unknown_example :
    (root : Bytes) × (v : Url) × (root_of site (codes "http://h/decide") ≡ ok root)
    × (site.parse root ≡ ok v)
    × (v.path ≡ codes "/decide")
    × (v.path ≢ [])
root_of_unknown_example =
    root_of_unknown site site-UrlLaws (codes "http://h/decide") (at (codes "/decide"))
      (refl, at-IsEndpoint (codes "/decide")) (λ e. cc)
      (ends_not (codes "/decide") (codes "/access/v1/evaluations")
        (unfold has_suffix equal in refl))
      (ends_not (codes "/decide") (codes "/access/v1/evaluation") (unfold has_suffix equal in refl))
      (ends_not (codes "/decide") (codes "/.well-known/authzen-configuration")
        (unfold has_suffix equal in refl))
      (ends_not (codes "/decide") (codes "/") (unfold has_suffix equal in refl))

set_auth-IsAuthorized_example : IsAuthorized (codes " DPoP abc") []
set_auth-IsAuthorized_example =
    set_auth-IsAuthorized (codes " DPoP abc") [] (unfold trim_space in refl)

set_auth_values :
    (set_auth (codes "abc ") [] ≡ ("Authorization", codes "Bearer abc") ∷ [])
    × (set_auth (codes "basic xyz") [] ≡ ("Authorization", codes "basic xyz") ∷ [])
    × (set_auth (codes "  ") [] ≡ [])
unfolding set_auth set_header has_auth_scheme trim_space cut to_lower equal
set_auth_values = (refl, refl, refl)

abbrev ask : HttpRequest
ask = record { method = "GET"; url = endpoint; headers = []; body = [] }

abbrev serves_long : Network
serves_long req = response 200 none (record { content = codes "true and more"; fault = none })

abbrev redirects : Network
redirects req =
    response 307 (some (codes "http://elsewhere")) (record { content = []; fault = none })

redirect-refused :
    answer redirects (do_request 4 ask) ≡ err (redirected endpoint (codes "http://elsewhere"))
unfolding answer do_request receive
redirect-refused = refl

do_request_iff_example : Delivers 4 (codes "true") (serves_long ask)
do_request_iff_example =
    (do_request_iff serves_long 4 ask (codes "true")).0
      (unfold answer do_request receive read_response read_limited in refl)
