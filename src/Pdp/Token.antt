-- ===== src/Pdp/Token.antt =====
-- Where the token goes: into the Authorization header of a request.
use mcp_opa.Base.{
  ◌≡◌, ◌≢◌, inl, inr, refl, ap, sym, ◌∙◌, List, [], Option, Bytes, String, Result-cases, Bool-cases,
  is_empty, ℕ,
}
use mcp_opa.Base.Results
use mcp_opa.Json.{Decode, Encode}
use mcp_opa.Config.Load.{Config}
use mcp_opa.Text.Trim.{trim_space}
use mcp_opa.Pdp.Wire.{Members}
use mcp_opa.Pdp.Url.{UrlPackage}
use mcp_opa.Pdp.Exchange.{HttpRequest, Network, answer, answer->>=}
use mcp_opa.Pdp.Client.{
  set_auth, new_request_id, do_request, receive, post_json, get_json, decode_response,
}
use mcp_opa.Pdp.Reply.{call, call_parsed, call_unparsed}
use mcp_opa.Pdp.Calls.{post_json_encoded}
use mcp_opa.Pdp.Auth.{header, set_auth-IsAuthorized}

-- The requests are the same but for the header Authorization.
pub record SameButToken (r r' : HttpRequest) : Type 0 where
  pub method : r.method ≡ r'.method
  pub url : r.url ≡ r'.url
  pub body : r.body ≡ r'.body
  pub headers :
      (name : String) → name ≢ "Authorization" → header name r.headers ≡ header name r'.headers

-- The same configuration with another token.
abbrev pub with_token : Bytes → Config → Config
with_token other cfg = record cfg { pdp_token = other }

-- A network whose replies do not depend on the token.
abbrev pub IgnoresToken : Network → Type 0
IgnoresToken net = (r r' : HttpRequest) → SameButToken r r' → net r ≡ net r'

set_auth-others :
    (token : Bytes) (hs : List (String × Bytes)) (name : String)
    → name ≢ "Authorization"
    → header name (set_auth token hs) ≡ header name hs
set_auth-others token hs name ne = elim (Bool-cases (is_empty (trim_space token))) [
  | inl blank ↦ unfold set_auth in rw blank refl
  | inr some_token ↦ (set_auth-IsAuthorized token hs some_token).others name ne
]

module _ (net : Network) (ignores : IgnoresToken net) where
  do_request-token :
      (limit : ℕ) (r r' : HttpRequest)
      → SameButToken r r'
      → answer net (do_request limit r) ≡ answer net (do_request limit r')
  unfolding do_request answer
  do_request-token limit r r' s =
      ap (λ reply. answer net (receive limit r.url reply)) (ignores r r' s)
      ∙ ap (λ url. answer net (receive limit url (net r'))) s.url

  module _ (urls : UrlPackage) (cfg : Config) (other : Bytes) (entropy : Option Bytes)
      (endpoint : Bytes) where
    headers-SameButToken :
        (method : String) (hs : List (String × Bytes)) (body : Bytes)
        → SameButToken
            (record {
              method = method;
              url = endpoint;
              headers = set_auth cfg.pdp_token hs;
              body = body;
            })
            (record { method = method; url = endpoint; headers = set_auth other hs; body = body })
    headers-SameButToken method hs body = record {
      method = refl;
      url = refl;
      body = refl;
      headers = λ name ne.
          set_auth-others cfg.pdp_token hs name ne ∙ sym (set_auth-others other hs name ne);
    }

    -- Two calls whose requests are the same but for the token.
    call-token :
        {A B : Type 0} (decode : Decode A) (k : A → B) (method : String)
        (hs : List (String × Bytes)) (body : Bytes)
        → answer net (
            call urls decode net cfg.pdp_max_bytes
              (record {
                method = method;
                url = endpoint;
                headers = set_auth cfg.pdp_token hs;
                body = body;
              })
              k)
          ≡ answer net (
              call urls decode net cfg.pdp_max_bytes
                (record {
                  method = method;
                  url = endpoint;
                  headers = set_auth other hs;
                  body = body;
                })
                k)
    call-token decode k method hs body =
        let r : HttpRequest = record {
          method = method;
          url = endpoint;
          headers = set_auth cfg.pdp_token hs;
          body = body;
        } in
        let r' : HttpRequest = record {
          method = method;
          url = endpoint;
          headers = set_auth other hs;
          body = body;
        } in
        elim (Result-cases (urls.parse endpoint)) [
          | inl (e, bad) ↦
              ap (answer net) (call_unparsed urls decode net cfg.pdp_max_bytes r k e bad)
              ∙ ap (answer net) (sym (call_unparsed urls decode net cfg.pdp_max_bytes r' k e bad))
          | inr (u, parsed) ↦
              ap (answer net) (call_parsed urls decode net cfg.pdp_max_bytes r k u parsed)
              ∙ answer->>= net (do_request cfg.pdp_max_bytes r)
                  (λ raw. decode_response decode raw k)
              ∙ ap (λ m. Results.◌>>=◌ m (λ raw. answer net (decode_response decode raw k)))
                  (do_request-token cfg.pdp_max_bytes r r' (headers-SameButToken method hs body))
              ∙ sym (
                  answer->>= net (do_request cfg.pdp_max_bytes r')
                    (λ raw. decode_response decode raw k))
              ∙ ap (answer net) (sym (call_parsed urls decode net cfg.pdp_max_bytes r' k u parsed))
        ]

    pub post_json-token :
        {A : Type 0} (encode : Encode Members) (decode : Decode A) (body : Members)
        → answer net (post_json urls encode decode cfg entropy endpoint body)
          ≡ answer net (post_json urls encode decode (with_token other cfg) entropy endpoint body)
    unfolding post_json
    post_json-token encode decode body = elim (Result-cases (encode body)) [
      | inl (e, bad) ↦ rw (bad, post_json) refl
      | inr (encoded, good) ↦
          ap (answer net)
            (post_json_encoded urls encode decode cfg entropy endpoint body net encoded good)
          ∙ call-token decode (λ v. (new_request_id entropy, v)) "POST" _ encoded
          ∙ ap (answer net) (
              sym (
                post_json_encoded urls encode decode (with_token other cfg) entropy endpoint body
                  net encoded good))
    ]

    pub get_json-token :
        {A : Type 0} (decode : Decode A)
        → answer net (get_json urls decode cfg entropy endpoint)
          ≡ answer net (get_json urls decode (with_token other cfg) entropy endpoint)
    unfolding get_json
    get_json-token decode = call-token decode (λ v. v) "GET" _ []
