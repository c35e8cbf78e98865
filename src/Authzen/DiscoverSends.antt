-- ===== src/Authzen/DiscoverSends.antt =====
-- What authzen_discover sends.
use mcp_opa.Base.{
  ◌≡◌, ◌⊎◌, inl, inr, refl, ap, sym, ◌∙◌, subst, [], ◌∷◌, ◌++◌, Option, Bytes, codes, ok,
  ok-injective, is_empty, Result-cases, >>=-eq-ok, refuse_if, Bool-cases,
}
use mcp_opa.Config.Load.{Config}
use mcp_opa.Args.Read.{Request}
use mcp_opa.Text.Suffix.{trim_suffix}
use mcp_opa.Pdp.Wire.{PdpMetadata, path_metadata}
use mcp_opa.Pdp.Url.{
  UrlPackage, Url, validate_pdp_url, strip_known, known_paths, root_of, resolve_from_root,
}
use mcp_opa.Pdp.Endpoint.{Accepts, validate_pdp_url_sound}
use mcp_opa.Pdp.Roots.{
  UrlLaws, Rooted, SameSite, root_of-SameSite, resolve_from_root-SameSite, trim_suffix-Rooted,
}
use mcp_opa.Pdp.Known.{Rooted-append, SameSite-trans}
use mcp_opa.Pdp.Exchange.{
  relabel, Network, requests, attempt->>=_of_ok, attempt->>=_of_err, requests->>=_quiet,
  requests-relabel,
}
use mcp_opa.Pdp.Client.{get_json, get_request, new_request_id}
use mcp_opa.Pdp.Calls.{requests-get_json}
use mcp_opa.Authzen.Codec.{encode_discover, Codec}
use mcp_opa.Authzen.EvaluateLaws.{requests-structured_result}
use mcp_opa.Authzen.Handlers.{pdp, no_pdp_url, report_metadata, authzen_discover}
use mcp_opa.Authzen.DiscoverLaws.{discover_url}

requests-report_metadata :
    (codec : Codec) (net : Network) (url : Bytes) (meta : PdpMetadata)
    → requests net (report_metadata codec url meta) ≡ []
unfolding report_metadata requests
requests-report_metadata codec net url meta =
    elim (Bool-cases (is_empty meta.access_evaluation_endpoint)) [
      | inl lacks ↦ rw (lacks, report_metadata) refl
      | inr has ↦
          rw (has, report_metadata) (requests-structured_result (encode_discover codec) net _)
    ]

root_of-Accepts :
    (urls : UrlPackage) (raw : Bytes) {root : Bytes}
    → root_of urls raw ≡ ok root
    → (u : Url) × Accepts urls raw u
unfolding root_of
root_of-Accepts urls raw h =
    let (checked, valid, rest) = >>=-eq-ok (validate_pdp_url urls raw) _ h in
    validate_pdp_url_sound urls raw valid

-- The path at which the metadata are asked for, for a URL that is given.
abbrev pub metadata_path : Url → Bytes
metadata_path u =
    trim_suffix (trim_suffix (strip_known known_paths u.path) (codes "/")) (codes "/")
    ++ path_metadata

module _ (urls : UrlPackage) (laws : UrlLaws urls) where
  metadata_url-SameSite :
      (raw : Bytes) (u : Url) {root url : Bytes}
      → Accepts urls raw u
      → root_of urls raw ≡ ok root
      → resolve_from_root urls root path_metadata ≡ ok url
      → SameSite urls u url (metadata_path u)
  metadata_url-SameSite raw u {root} {url} a rooted resolved =
      let (root', found, site) = root_of-SameSite urls laws raw u a in
      let left = trim_suffix (strip_known known_paths u.path) (codes "/") in
      let same : root' ≡ root = ok-injective (sym found ∙ rooted) in
      let front : Rooted (trim_suffix site.url.path (codes "/") ++ path_metadata) =
        Rooted-append (trim_suffix site.url.path (codes "/")) path_metadata
          (trim_suffix-Rooted site.url.path (codes "/")
            (laws.rooted root' site.url site.parses site.is_endpoint.hosted))
          refl in
      let (url', again, next) =
        resolve_from_root-SameSite urls laws root' path_metadata site.url
          (site.parses, site.is_endpoint) front in
      let same_url : url' ≡ url =
        ok-injective
          (sym again ∙ ap (λ r. resolve_from_root urls r path_metadata) same ∙ resolved) in
      subst (λ t. SameSite urls u t (metadata_path u)) same_url
        (subst (λ p. SameSite urls u url' (trim_suffix p (codes "/") ++ path_metadata)) site.at_path
          (SameSite-trans urls u site next))

  module _ (codec : Codec) (cfg : Config) (entropy : Option Bytes) (req : Request)
      (net : Network) where
    -- A call of authzen_discover sends nothing, or one request: a GET, to the scheme and host of the URL
    -- given or configured, which is accepted, at the metadata path behind what is left of its path.
    pub discover_requests :
        (requests net (authzen_discover urls codec cfg entropy req) ≡ [])
        ⊎ ((u : Url) × (url : Bytes) × Accepts urls (discover_url cfg req) u
            × SameSite urls u url (metadata_path u)
            × (requests net (authzen_discover urls codec cfg entropy req)
                ≡ get_request cfg (new_request_id entropy) url ∷ []))
    unfolding authzen_discover
    discover_requests =
        elim (Result-cases (refuse_if (is_empty (discover_url cfg req)) no_pdp_url)) [
          | inl (e, bad) ↦
              inl (ap (requests net) (attempt->>=_of_err _ _ bad) ∙ unfold requests in refl)
          | inr (given, present) ↦ elim (Result-cases (root_of urls (discover_url cfg req))) [
            | inl (e, bad) ↦ inl (
                ap (requests net) (attempt->>=_of_ok _ _ present)
                ∙ ap (requests net) (attempt->>=_of_err _ _ bad)
                ∙ unfold requests in refl)
            | inr (root, rooted) ↦ elim (Result-cases (resolve_from_root urls root path_metadata)) [
              | inl (e, bad) ↦ inl (
                  ap (requests net) (attempt->>=_of_ok _ _ present)
                  ∙ ap (requests net) (attempt->>=_of_ok _ _ rooted)
                  ∙ ap (requests net) (attempt->>=_of_err _ _ bad)
                  ∙ unfold requests in refl)
              | inr (url, resolved) ↦
                  let (u, a) = root_of-Accepts urls (discover_url cfg req) rooted in
                  let site = metadata_url-SameSite (discover_url cfg req) u a rooted resolved in
                  let get = get_json urls codec.metadata cfg entropy url in
                  inr (
                    u,
                    url,
                    a,
                    site,
                    ap (requests net) (attempt->>=_of_ok _ _ present)
                        ∙ ap (requests net) (attempt->>=_of_ok _ _ rooted)
                        ∙ ap (requests net) (attempt->>=_of_ok _ _ resolved)
                        ∙ requests->>=_quiet net (report_metadata codec url) (relabel pdp get)
                            (λ meta. requests-report_metadata codec net url meta)
                        ∙ requests-relabel net pdp get
                        ∙ requests-get_json urls codec.metadata cfg entropy url net site.url
                            site.parses,
                  )
            ]
          ]
        ]
