-- ===== src/Pdp/Endpoint.antt =====
-- `validatePDPURL` and `resolveEndpoint`: which URLs a call may be sent to.
use mcp_opa.Base.{
  ◌≡◌, ◌≢◌, ◌↔◌, ◌⊎◌, inl, inr, [], none, Bytes, codes, equal_iff, is_empty, if◌then◌else◌, arith,
  ok, Result-cases,
}
use mcp_opa.Pdp.Url.{Url, UrlPackage, validate_url, validate_pdp_url, resolve_endpoint}

-- A URL that a request may be sent to.
pub record IsEndpoint (u : Url) : Type 0 where
  pub http : (u.scheme ≡ codes "http") ⊎ (u.scheme ≡ codes "https")
  pub hosted : u.host ≢ []
  pub no_user : u.user ≡ none

pub validate_url_iff : (u : Url) → (validate_url u ≡ ok tt) ↔ IsEndpoint u
unfolding validate_url
validate_url_iff u = (
  (λ h. record {
    http = ground (arith, equal_iff u.scheme (codes "http"), equal_iff u.scheme (codes "https"));
    hosted = ground arith;
    no_user = ground arith;
  }),
  λ e. ground (
    arith,
    equal_iff u.scheme (codes "http"),
    equal_iff u.scheme (codes "https"),
    e.http,
    e.hosted,
    e.no_user,
  ),
)

module _ (urls : UrlPackage) where
  abbrev pub Accepts : Bytes → Url → Type 0
  Accepts raw u = (urls.parse raw ≡ ok u) × IsEndpoint u

  pub validate_pdp_url_sound :
      (raw : Bytes) → validate_pdp_url urls raw ≡ ok tt → (u : Url) × Accepts raw u
  unfolding validate_pdp_url
  validate_pdp_url_sound raw h = elim (Result-cases (urls.parse raw)) [
    | inl (e, bad) ↦ ground (arith, bad)
    | inr (u, good) ↦ (u, (good, (validate_url_iff u).0 (rw (good, validate_pdp_url) at h)))
  ]

  pub validate_pdp_url_complete :
      (raw : Bytes) (u : Url) → Accepts raw u → validate_pdp_url urls raw ≡ ok tt
  unfolding validate_pdp_url
  validate_pdp_url_complete raw u (good, e) = rw (good, validate_pdp_url) ((validate_url_iff u).1 e)

  -- The endpoint of a call is the override where there is one and the configured URL otherwise,
  -- and it is accepted exactly when it parses to an http(s) URL with a host and no user.
  pub resolve_endpoint_iff :
      (configured override raw : Bytes)
      → (resolve_endpoint urls configured override ≡ ok raw) ↔ (
          (raw ≡ (if is_empty override then configured else override))
          × (raw ≢ [])
          × ((u : Url) × Accepts raw u))
  unfolding resolve_endpoint
  resolve_endpoint_iff configured override raw = (sound, complete)
    where
      chosen : Bytes
      chosen = if is_empty override then configured else override

      sound :
          resolve_endpoint urls configured override ≡ ok raw
          → (raw ≡ chosen) × (raw ≢ []) × ((u : Url) × Accepts raw u)
      sound h = elim (Result-cases (validate_pdp_url urls chosen)) [
        | inl (e, bad) ↦ absurd (ground arith)
        | inr (checked, good) ↦
            let (u, (parsed, e)) = validate_pdp_url_sound chosen good in
            (ground arith, ground arith, (u, (ground arith, e)))
      ]

      complete :
          (raw ≡ chosen) × (raw ≢ []) × ((u : Url) × Accepts raw u)
          → resolve_endpoint urls configured override ≡ ok raw
      complete (same, ne, (u, a)) = ground (arith, validate_pdp_url_complete raw u a)
