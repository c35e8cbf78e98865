-- ===== src/Pdp/Reply.antt =====
-- When a call obtains a response: exactly one request is sent, and the reply to it is a 200 whose
-- body, up to the limit, is decoded.
use mcp_opa.Base.{
  ℕ, ◌≡◌, ◌↔◌, ◌≤◌, refl, ap, ap₂, subst, ◌++◌, [], ◌∷◌, Option, none, some, Bytes, ok, err, length,
  arith, length-take, Result-cases, Bool-cases, ◌∙◌, inl, inr,
}
use mcp_opa.Json.{Decode}
use mcp_opa.Pdp.Url.{UrlPackage, Url}
use mcp_opa.Pdp.Exchange.{
  HttpRequest, Body, HttpReply, no_reply, response, Exchange, done, failed, ◌>>=◌, Network, answer,
  requests, answer->>=-eq-ok, answer->>=_of_ok, requests->>=_of_ok, requests->>=_of_err,
}
use mcp_opa.Pdp.Client.{
  PdpError, build_failed, read_limited, read_response, receive, do_request, build_request,
  decode_response, is_redirect,
}

-- The body that is read of a successful reply.
pub data Delivers (limit : ℕ) (raw : Bytes) : HttpReply → Type 0 where
  ok_200 :
      (location : Option Bytes) {body : Body}
      → read_limited limit body ≡ ok raw
      → Delivers limit raw (response 200 location body)

Delivers-of :
    (limit code : ℕ) (location : Option Bytes) (body : Body) {raw : Bytes}
    → code ≡ 200
    → read_limited limit body ≡ ok raw
    → Delivers limit raw (response code location body)
Delivers-of limit code location body e h = rw e (ok_200 location h)

module _ (net : Network) (limit : ℕ) where
  read_response_sound :
      (code : ℕ) (location : Option Bytes) (body : Body) {raw : Bytes}
      → answer net (read_response limit code body) ≡ ok raw
      → Delivers limit raw (response code location body)
  unfolding read_response answer
  read_response_sound code location body h = elim (Result-cases (read_limited limit body)) [
    | inl (e, bad) ↦ absurd (ground (arith, bad))
    | inr (raw', good) ↦
        Delivers-of limit code location body (ground (arith, good)) (ground (arith, good))
  ]

  receive_sound :
      (url : Bytes) (reply : HttpReply) {raw : Bytes}
      → answer net (receive limit url reply) ≡ ok raw
      → Delivers limit raw reply
  unfolding receive answer
  receive_sound url (no_reply e) h = cc
  receive_sound url (response code none body) h = read_response_sound code none body h
  receive_sound url (response code (some location) body) h = elim (Bool-cases (is_redirect code)) [
    | inl refused ↦ absurd (ground arith)
    | inr followed ↦ read_response_sound code (some location) body (ground arith)
  ]

  receive_complete :
      (url : Bytes) {reply : HttpReply} {raw : Bytes}
      → Delivers limit raw reply
      → answer net (receive limit url reply) ≡ ok raw
  unfolding receive answer read_response
  receive_complete url (ok_200 none h) = ground (arith, h)
  receive_complete url (ok_200 (some l) h) = ground (arith, h)

  -- `do` gives a body exactly when the reply to its one request is a 200 whose body, read up to
  -- the limit, is that one.
  pub do_request_iff :
      (req : HttpRequest) (raw : Bytes)
      → (answer net (do_request limit req) ≡ ok raw) ↔ Delivers limit raw (net req)
  unfolding do_request answer
  do_request_iff req raw = (receive_sound req.url (net req), receive_complete req.url)

  requests-read_response :
      (code : ℕ) (body : Body) → requests net (read_response limit code body) ≡ []
  unfolding read_response requests
  requests-read_response code body = ground arith

  requests-receive : (url : Bytes) (reply : HttpReply) → requests net (receive limit url reply) ≡ []
  unfolding receive requests
  requests-receive url (no_reply e) = refl
  requests-receive url (response code none body) = requests-read_response code body
  requests-receive url (response code (some location) body) =
      ground (arith, requests-read_response code body)

  pub requests-do_request : (req : HttpRequest) → requests net (do_request limit req) ≡ req ∷ []
  unfolding do_request requests
  requests-do_request req = ap (◌∷◌ req) (requests-receive req.url (net req))

-- What is read of a body is bounded by the limit.
pub Delivers-bound :
    {limit : ℕ} {raw : Bytes} {reply : HttpReply} → Delivers limit raw reply → length raw ≤ limit
unfolding read_limited
Delivers-bound {limit} {raw} (ok_200 location {body} h) =
    ground (arith, h, length-take limit body.content)

-- A call obtains `v`: its URL parses, the reply to its request delivers a body, and that is
-- decoded to `v`.
pub record Obtains {A : Type 0} (urls : UrlPackage) (decode : Decode A) (net : Network) (limit : ℕ)
    (req : HttpRequest) (v : A) : Type 0 where
  pub url : Url
  pub parses : urls.parse req.url ≡ ok url
  pub raw : Bytes
  pub delivers : Delivers limit raw (net req)
  pub decodes : decode raw ≡ ok v

module _ {A B : Type 0} (urls : UrlPackage) (decode : Decode A) (net : Network) (limit : ℕ)
    (req : HttpRequest) (k : A → B) where
  -- What `postJSON` and `getJSON` have in common.
  abbrev pub call : Exchange PdpError B
  call = build_request urls req >>= λ r. do_request limit r >>= λ raw. decode_response decode raw k

  decode_response_sound :
      (raw : Bytes) {w : B}
      → answer net (decode_response decode raw k) ≡ ok w
      → (v : A) × (decode raw ≡ ok v) × (w ≡ k v)
  unfolding answer
  decode_response_sound raw h = elim (Result-cases (decode raw)) [
    | inl (e, bad) ↦ absurd (ground (arith, bad))
    | inr (v, good) ↦ (v, good, ground (arith, good))
  ]

  decode_response_complete :
      (raw : Bytes) (v : A) → decode raw ≡ ok v → decode_response decode raw k ≡ done (k v)
  decode_response_complete raw v h = rw (h, decode_response)

  build_request_sound :
      {r : HttpRequest}
      → answer net (build_request urls req) ≡ ok r
      → (u : Url) × (urls.parse req.url ≡ ok u) × (r ≡ req)
  unfolding answer
  build_request_sound h = elim (Result-cases (urls.parse req.url)) [
    | inl (e, bad) ↦ absurd (ground (arith, bad))
    | inr (u, good) ↦ (u, good, ground (arith, good))
  ]

  build_request_complete : (u : Url) → urls.parse req.url ≡ ok u → build_request urls req ≡ done req
  build_request_complete u h = rw (h, build_request)

  abbrev finish : Bytes → Exchange PdpError B
  finish raw = decode_response decode raw k

  pub call_sound :
      {w : B} → answer net call ≡ ok w → (v : A) × Obtains urls decode net limit req v × (w ≡ k v)
  call_sound h =
      let (r, built, rest) =
        answer->>=-eq-ok net (build_request urls req) (λ r. do_request limit r >>= finish) h in
      let (u, parsed, same) = build_request_sound built in
      let (raw, read, later) = answer->>=-eq-ok net (do_request limit r) finish rest in
      let (v, decoded, e) = decode_response_sound raw later in
      (
        v,
        record {
          url = u;
          parses = parsed;
          raw = raw;
          delivers =
              (do_request_iff net limit req raw).0
                (subst (λ r. answer net (do_request limit r) ≡ ok raw) same read);
          decodes = decoded;
        },
        e,
      )

  pub call_parsed : (u : Url) → urls.parse req.url ≡ ok u → call ≡ (do_request limit req >>= finish)
  call_parsed u h = ap (λ m. m >>= λ r. do_request limit r >>= finish) (build_request_complete u h)

  pub call_unparsed : (e : Bytes) → urls.parse req.url ≡ err e → call ≡ failed (build_failed e)
  call_unparsed e h = rw (h, build_request) refl

  pub call_complete : (v : A) → Obtains urls decode net limit req v → answer net call ≡ ok (k v)
  call_complete v o =
      ap (answer net) (call_parsed o.url o.parses)
      ∙ answer->>=_of_ok net (do_request limit req) finish o.raw
          ((do_request_iff net limit req o.raw).1 o.delivers)
      ∙ ap (answer net) (decode_response_complete o.raw v o.decodes)
      ∙ unfold answer in refl

  requests-decode_response : (raw : Bytes) → requests net (finish raw) ≡ []
  unfolding requests
  requests-decode_response raw = ground arith

  -- One request is sent, whatever comes of it.
  pub requests-call : (u : Url) → urls.parse req.url ≡ ok u → requests net call ≡ req ∷ []
  requests-call u h =
      ap (requests net) (call_parsed u h)
      ∙ elim (Result-cases (answer net (do_request limit req))) [
        | inl (e, bad) ↦
            requests->>=_of_err net (do_request limit req) finish e bad
            ∙ requests-do_request net limit req
        | inr (raw, good) ↦
            requests->>=_of_ok net (do_request limit req) finish raw good
            ∙ ap₂ ◌++◌ (requests-do_request net limit req) (requests-decode_response raw)
      ]
