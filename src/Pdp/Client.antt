-- ===== src/Pdp/Client.antt =====
-- authzen.go: `pdpClient`, `postJSON`, `getJSON`, `do`, `setAuth`, `hasAuthScheme`, `statusHint`,
-- `snippet` and `newRequestID`. The HTTP client is the `Exchange`; the context's deadline and the
-- client's timeout are among the failures of the transport.
use mcp_opa.Base.{
  ℕ, ◌+◌, ◌-◌, ◌/◌, ◌%◌, Bool, false, ◌||◌, List, [], ◌∷◌, ◌++◌, Option, none, some, Bytes, codes,
  equal, is_empty, if◌then◌else◌, Result, ok, err, String, str_eq, length, take, ltb, ◌==◌, any,
}
use mcp_opa.Text.Search.{cut, to_lower}
use mcp_opa.Text.Trim.{trim_space}
use mcp_opa.Text.Truncate.{truncate}
use mcp_opa.Json.{Decode, Encode}
use mcp_opa.Config.Load.{Config}
use mcp_opa.Pdp.Url.{UrlPackage, UrlError}
use mcp_opa.Pdp.Wire.{Members}
use mcp_opa.Pdp.Exchange.{
  HttpRequest, Body, HttpReply, no_reply, response, Exchange, done, failed, send, ◌>>=◌,
}

-- `errPDP`: the failures to obtain a decision.
pub data PdpError : Type 0 where
  bad_endpoint : UrlError → PdpError
  encode_failed : Bytes → PdpError
  build_failed : Bytes → PdpError
  request_failed : Bytes → Bytes → PdpError
  redirected : Bytes → Bytes → PdpError
  read_failed : Bytes → PdpError
  bad_status : ℕ → Bytes → String → PdpError
  bad_response : Bytes → Bytes → PdpError

-- `req.Header.Set`
unfoldable pub set_header : String → Bytes → List (String × Bytes) → List (String × Bytes)
set_header name v [] = (name, v) ∷ []
set_header name v ((n, w) ∷ hs) =
    if str_eq n name then (name, v) ∷ hs else (n, w) ∷ set_header name v hs

abbrev pub auth_schemes : List Bytes
auth_schemes = codes "bearer" ∷ codes "basic" ∷ codes "dpop" ∷ []

unfoldable pub has_auth_scheme : Bytes → Bool
has_auth_scheme token = elim (cut b' ' token) [
  | none ↦ false
  | some (scheme, rest) ↦ any (equal (to_lower scheme)) auth_schemes
]

unfoldable pub set_auth : Bytes → List (String × Bytes) → List (String × Bytes)
set_auth configured headers =
    let token = trim_space configured in
    if is_empty token
    then headers
    else set_header "Authorization"
        (if has_auth_scheme token then token else codes "Bearer " ++ token) headers

abbrev pub hint_401 : String
hint_401 =
    "\n\nnote: 401 means this MCP server failed to authenticate to the PDP, not that the subject was denied. Check AUTHZEN_PDP_TOKEN."

abbrev pub hint_403 : String
hint_403 =
    "\n\nnote: 403 means this MCP server is not permitted to query the PDP, not that the subject was denied. Check AUTHZEN_PDP_TOKEN."

abbrev pub hint_404 : String
hint_404 =
    "\n\nnote: 404 usually means the URL is a PDP root rather than an endpoint. The AuthZEN default paths are /access/v1/evaluation and /access/v1/evaluations; authzen_discover resolves them from a PDP root."

unfoldable pub status_hint : ℕ → String
status_hint code =
    if code == 401
    then hint_401
    else if code == 403
    then hint_403
    else if code == 404
    then hint_404
    else ""

unfoldable pub snippet : Bytes → Bytes
snippet b = let s = trim_space b in if is_empty s then codes "(empty body)" else truncate 512 s

unfoldable pub hex_digit : ℕ → ℕ
hex_digit n = if ltb n 10 then b'0' + n else b'a' + (n - 10)

-- `hex.EncodeToString`
unfoldable pub hex_encode : Bytes → Bytes
unfolding hex_digit
hex_encode [] = []
hex_encode (b ∷ bs) = hex_digit (b / 16) ∷ hex_digit (b % 16) ∷ hex_encode bs

-- The argument is what `rand.Read` put into the 16 bytes, or none where it failed.
unfoldable pub new_request_id : Option Bytes → Bytes
new_request_id none = codes "mcp-opa-authz"
new_request_id (some b) = hex_encode b

-- The statuses that `http.Client` takes for a redirect, if the reply names a location.
abbrev pub is_redirect : ℕ → Bool
is_redirect code = code == 301 || code == 302 || code == 303 || code == 307 || code == 308

-- `io.ReadAll(io.LimitReader(body, limit))`: the limit hides what stands behind it, an error too.
unfoldable pub read_limited : ℕ → Body → Result Bytes Bytes
read_limited limit body = elim body.fault [
  | none ↦ ok (take limit body.content)
  | some e ↦ if ltb (length body.content) limit then err e else ok (take limit body.content)
]

-- What `do` makes of a reply that is no redirect.
unfoldable pub read_response : ℕ → ℕ → Body → Exchange PdpError Bytes
read_response max_bytes code body = elim (read_limited max_bytes body) [
  | err e ↦ failed (read_failed e)
  | ok raw ↦
      if code == 200 then done raw else failed (bad_status code (snippet raw) (status_hint code))
]

-- `CheckRedirect` refuses every redirect, so `http.Client.Do` fails with its error.
unfoldable pub receive : ℕ → Bytes → HttpReply → Exchange PdpError Bytes
receive max_bytes url (no_reply e) = failed (request_failed url e)
receive max_bytes url (response code none body) = read_response max_bytes code body
receive max_bytes url (response code (some location) body) =
    if is_redirect code then failed (redirected url location) else read_response max_bytes code body

unfoldable pub do_request : ℕ → HttpRequest → Exchange PdpError Bytes
do_request max_bytes req = send req (receive max_bytes req.url)

abbrev pub post_headers : Bytes → Bytes → List (String × Bytes)
post_headers token request_id = set_auth token (
    set_header "X-Request-ID" request_id (
      set_header "Accept" (codes "application/json")
        (set_header "Content-Type" (codes "application/json") [])))

abbrev pub get_headers : Bytes → Bytes → List (String × Bytes)
get_headers token request_id =
    set_auth token
      (set_header "X-Request-ID" request_id (set_header "Accept" (codes "application/json") []))

-- `http.NewRequestWithContext` fails where the URL cannot be parsed.
abbrev pub build_request : UrlPackage → HttpRequest → Exchange PdpError HttpRequest
build_request urls req = elim (urls.parse req.url) [
  | ok u ↦ done req
  | err e ↦ failed (build_failed e)
]

abbrev pub decode_response {ℓ} :
    {A : Type 0} {B : Type ℓ} → Decode A → Bytes → (A → B) → Exchange PdpError B
decode_response decode raw k = elim (decode raw) [
  | ok v ↦ done (k v)
  | err e ↦ failed (bad_response e (snippet raw))
]

abbrev pub post_request : Config → Bytes → Bytes → Bytes → HttpRequest
post_request cfg request_id endpoint encoded = record {
  method = "POST";
  url = endpoint;
  headers = post_headers cfg.pdp_token request_id;
  body = encoded;
}

abbrev pub get_request : Config → Bytes → Bytes → HttpRequest
get_request cfg request_id endpoint = record {
  method = "GET";
  url = endpoint;
  headers = get_headers cfg.pdp_token request_id;
  body = [];
}

-- A successful call gives the request id and the decoded response.
unfoldable pub post_json :
    {A : Type 0}
    → UrlPackage
    → Encode Members
    → Decode A
    → Config
    → Option Bytes
    → Bytes
    → Members
    → Exchange PdpError (Bytes × A)
post_json urls encode decode cfg entropy endpoint body = elim (encode body) [
  | err e ↦ failed (encode_failed e)
  | ok encoded ↦ do
    let request_id = new_request_id entropy
    req ← build_request urls (post_request cfg request_id endpoint encoded)
    raw ← do_request cfg.pdp_max_bytes req
    decode_response decode raw (λ v. (request_id, v))
]

unfoldable pub get_json :
    {A : Type 0} → UrlPackage → Decode A → Config → Option Bytes → Bytes → Exchange PdpError A
get_json urls decode cfg entropy endpoint = do
  req ← build_request urls (get_request cfg (new_request_id entropy) endpoint)
  raw ← do_request cfg.pdp_max_bytes req
  decode_response decode raw (λ v. v)
