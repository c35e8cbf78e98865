-- ===== src/Pdp/Calls.antt =====
-- `postJSON` and `getJSON`: what they obtain, and what they send.
use mcp_opa.Base.{◌≡◌, ◌⊎◌, inl, inr, ap, sym, [], ◌∷◌, Option, Bytes, ok, arith, Result-cases, ◌∙◌}
use mcp_opa.Json.{Decode, Encode}
use mcp_opa.Config.Load.{Config}
use mcp_opa.Pdp.Url.{UrlPackage, Url}
use mcp_opa.Pdp.Wire.{Members}
use mcp_opa.Pdp.Exchange.{HttpRequest, Network, answer, requests}
use mcp_opa.Pdp.Client.{post_json, get_json, post_request, get_request, new_request_id}
use mcp_opa.Pdp.Reply.{Obtains, call, call_sound, call_complete, requests-call}

module _ {A : Type 0} (urls : UrlPackage) (encode : Encode Members) (decode : Decode A)
    (cfg : Config) (entropy : Option Bytes) (endpoint : Bytes) (body : Members)
    (net : Network) where
  abbrev pub posted : Bytes → HttpRequest
  posted encoded = post_request cfg (new_request_id entropy) endpoint encoded

  pub post_json_encoded :
      (encoded : Bytes)
      → encode body ≡ ok encoded
      → post_json urls encode decode cfg entropy endpoint body
        ≡ call urls decode net cfg.pdp_max_bytes (posted encoded) (λ v. (new_request_id entropy, v))
  unfolding post_json
  post_json_encoded encoded h = rw (h, post_json)

  -- A successful `postJSON`: the body is encoded, the request id is the one that is made of the
  -- random bytes, and the reply to the request with both gives the value.
  pub post_json_sound :
      (id : Bytes) (v : A)
      → answer net (post_json urls encode decode cfg entropy endpoint body) ≡ ok (id, v)
      → (encoded : Bytes) × (encode body ≡ ok encoded)
        × (id ≡ new_request_id entropy)
        × Obtains urls decode net cfg.pdp_max_bytes (posted encoded) v
  post_json_sound id v h = elim (Result-cases (encode body)) [
    | inl (e, bad) ↦ absurd (unfold post_json answer in ground (arith, bad))
    | inr (encoded, good) ↦
        let (v', o, e) =
          call_sound urls decode net cfg.pdp_max_bytes (posted encoded)
            (λ v. (new_request_id entropy, v))
            (ap (answer net) (sym (post_json_encoded encoded good)) ∙ h) in
        let same : v ≡ v' = ap (λ p. p.1) e in (encoded, good, ap (λ p. p.0) e, rw same o)
  ]

  pub post_json_complete :
      (encoded : Bytes) (v : A)
      → encode body ≡ ok encoded
      → Obtains urls decode net cfg.pdp_max_bytes (posted encoded) v
      → answer net (post_json urls encode decode cfg entropy endpoint body)
        ≡ ok (new_request_id entropy, v)
  post_json_complete encoded v h o =
      ap (answer net) (post_json_encoded encoded h)
      ∙ call_complete urls decode net cfg.pdp_max_bytes (posted encoded)
          (λ v. (new_request_id entropy, v)) v o

  -- Nothing is sent, or one request with the encoded body, to an endpoint that parses.
  pub requests-post_json :
      (u : Url)
      → urls.parse endpoint ≡ ok u
      → (requests net (post_json urls encode decode cfg entropy endpoint body) ≡ [])
        ⊎ ((encoded : Bytes) × (encode body ≡ ok encoded)
            × (requests net (post_json urls encode decode cfg entropy endpoint body)
                ≡ posted encoded ∷ []))
  requests-post_json u p = elim (Result-cases (encode body)) [
    | inl (e, bad) ↦ inl (unfold post_json requests in ground (arith, bad))
    | inr (encoded, good) ↦ inr (
      encoded,
      good,
      ap (requests net) (post_json_encoded encoded good)
          ∙ requests-call urls decode net cfg.pdp_max_bytes (posted encoded)
              (λ v. (new_request_id entropy, v)) u p,
    )
  ]

module _ {A : Type 0} (urls : UrlPackage) (decode : Decode A) (cfg : Config)
    (entropy : Option Bytes) (endpoint : Bytes) (net : Network) where
  abbrev pub got : HttpRequest
  got = get_request cfg (new_request_id entropy) endpoint

  pub get_json_sound :
      (v : A)
      → answer net (get_json urls decode cfg entropy endpoint) ≡ ok v
      → Obtains urls decode net cfg.pdp_max_bytes got v
  unfolding get_json
  get_json_sound v h =
      let (v', o, e) = call_sound urls decode net cfg.pdp_max_bytes got (λ v. v) h in rw e o

  pub get_json_complete :
      (v : A)
      → Obtains urls decode net cfg.pdp_max_bytes got v
      → answer net (get_json urls decode cfg entropy endpoint) ≡ ok v
  unfolding get_json
  get_json_complete v o = call_complete urls decode net cfg.pdp_max_bytes got (λ v. v) v o

  pub requests-get_json :
      (u : Url)
      → urls.parse endpoint ≡ ok u
      → requests net (get_json urls decode cfg entropy endpoint) ≡ got ∷ []
  unfolding get_json
  requests-get_json u p = requests-call urls decode net cfg.pdp_max_bytes got (λ v. v) u p
