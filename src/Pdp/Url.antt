-- ===== src/Pdp/Url.antt =====
-- authzen.go: `validatePDPURL`, `resolveFromRoot` and `rootOf` and `resolveEndpoint`, with `batchEndpointFrom` of
-- tool_authzen.go. Package net/url is a parameter: its parser, and the text of a URL.
use mcp_opa.Base.{
  Bool, true, false, not, ◌||◌, List, [], ◌∷◌, ◌++◌, Option, none, some, Bytes, codes, equal,
  is_empty, if◌then◌else◌, Result, ok, err, ◌>>=◌, ◌>>◌, map_err,
}
use mcp_opa.Text.Suffix.{has_suffix, trim_suffix}
use mcp_opa.Pdp.Wire.{path_evaluation, path_evaluations, path_metadata}

-- The fields of `url.URL`.
pub record Url : Type 0 where
  pub scheme : Bytes
  pub opaque : Bytes
  pub user : Option Bytes
  pub host : Bytes
  pub path : Bytes
  pub raw_path : Bytes
  pub force_query : Bool
  pub raw_query : Bytes
  pub fragment : Bytes
  pub raw_fragment : Bytes

-- `url.Parse` and `(*URL).String`.
pub record UrlPackage : Type 0 where
  pub parse : Bytes → Result Bytes Url
  pub render : Url → Bytes

-- The part of `errPDP` that concerns endpoints.
pub data UrlError : Type 0 where
  no_endpoint : UrlError
  invalid_url : Bytes → UrlError
  bad_scheme : Bytes → UrlError
  no_host : UrlError
  has_userinfo : UrlError

abbrev pub is_http : Bytes → Bool
is_http scheme = equal scheme (codes "http") || equal scheme (codes "https")

abbrev pub is_some {ℓ} : {A : Type ℓ} → Option A → Bool
is_some none = false
is_some (some a) = true

unfoldable pub validate_url : Url → Result UrlError (Unit {0})
validate_url u =
    if not (is_http u.scheme)
    then err (bad_scheme u.scheme)
    else if is_empty u.host
    then err no_host
    else if is_some u.user
    then err has_userinfo
    else ok tt

-- The loop over the known paths: the first that the path ends in is taken off.
unfoldable pub strip_known : List Bytes → Bytes → Bytes
strip_known [] path = path
strip_known (p ∷ ps) path = if has_suffix path p then trim_suffix path p else strip_known ps path

abbrev pub known_paths : List Bytes
known_paths = path_evaluations ∷ path_evaluation ∷ path_metadata ∷ []

module _ (urls : UrlPackage) where
  unfoldable pub validate_pdp_url : Bytes → Result UrlError (Unit {0})
  validate_pdp_url raw = do u ← map_err invalid_url (urls.parse raw); validate_url u

  unfoldable pub resolve_from_root : Bytes → Bytes → Result UrlError Bytes
  resolve_from_root root path = do
    validate_pdp_url root
    u ← map_err invalid_url (urls.parse root)
    ok (
        urls.render (record u {
          path = trim_suffix u.path (codes "/") ++ path;
          raw_query = [];
          fragment = [];
        }))

  unfoldable pub root_of : Bytes → Result UrlError Bytes
  root_of endpoint = do
    validate_pdp_url endpoint
    u ← map_err invalid_url (urls.parse endpoint)
    ok (
        urls.render (record u {
          path = trim_suffix (strip_known known_paths u.path) (codes "/");
          raw_query = [];
          fragment = [];
        }))

  unfoldable pub batch_endpoint_from : Bytes → Result UrlError Bytes
  batch_endpoint_from configured =
      if is_empty configured
      then err no_endpoint
      else do root ← root_of configured; resolve_from_root root path_evaluations

  unfoldable pub resolve_endpoint : Bytes → Bytes → Result UrlError Bytes
  resolve_endpoint configured override =
      let raw = if is_empty override then configured else override in
      if is_empty raw then err no_endpoint else do validate_pdp_url raw; ok raw
