-- ===== src/Pdp/Known.antt =====
-- Deriving one endpoint of a decision point from another: the prefix under which it is mounted
-- stays.
use mcp_opa.Base.{
  Bool-cases, inl, inr, ◌≡◌, ◌≢◌, refl, sym, ap, ◌∙◌, false, [], ◌∷◌, ◌++◌, Bytes, codes, arith, ok,
  ◌>>=◌, equal, subst,
}
use mcp_opa.Text.Suffix.{
  has_suffix, trim_suffix, has_suffix-append, trim_suffix-append, has_suffix-append_of_le,
  has_suffix-last_ne, last-append, trim_suffix_none, trim_suffix_split, last,
}
use mcp_opa.Pdp.Wire.{path_evaluation, path_evaluations, path_metadata}
use mcp_opa.Pdp.Url.{
  Url, UrlPackage, strip_known, known_paths, root_of, resolve_from_root, batch_endpoint_from,
}
use mcp_opa.Pdp.Endpoint.{Accepts}
use mcp_opa.Pdp.Roots.{
  UrlLaws, Rooted, SameSite, root_of-SameSite, resolve_from_root-SameSite, front-Rooted,
}

-- The three paths that the source knows.
pub data Known : Bytes → Type 0 where
  evaluation : Known path_evaluation
  evaluations : Known path_evaluations
  metadata : Known path_metadata

strip_evaluations : (prefix : Bytes) → strip_known known_paths (prefix ++ path_evaluations) ≡ prefix
unfolding strip_known
strip_evaluations prefix =
    rw (has_suffix-append prefix path_evaluations) (trim_suffix-append prefix path_evaluations)

-- A path that ends in `n` does not end in the plural path.
not_evaluations : (path : Bytes) → last path ≡ b'n' → has_suffix path path_evaluations ≡ false
not_evaluations path e =
    has_suffix-last_ne path b'/' (codes "access/v1/evaluations") (λ same. ground (arith, e, same))

strip_evaluation : (prefix : Bytes) → strip_known known_paths (prefix ++ path_evaluation) ≡ prefix
unfolding strip_known
strip_evaluation prefix =
    rw
      (
        not_evaluations (prefix ++ path_evaluation)
            (last-append prefix b'/' (codes "access/v1/evaluation")),
        has_suffix-append prefix path_evaluation,
      )
      (trim_suffix-append prefix path_evaluation)

metadata_not_evaluation :
    (prefix : Bytes) → has_suffix (prefix ++ path_metadata) path_evaluation ≡ false
unfolding has_suffix equal
metadata_not_evaluation prefix =
    has_suffix-append_of_le prefix path_metadata path_evaluation (omega arith)

strip_metadata : (prefix : Bytes) → strip_known known_paths (prefix ++ path_metadata) ≡ prefix
unfolding strip_known
strip_metadata prefix =
    rw
      (
        not_evaluations (prefix ++ path_metadata)
            (last-append prefix b'/' (codes ".well-known/authzen-configuration")),
        metadata_not_evaluation prefix,
        has_suffix-append prefix path_metadata,
      )
      (trim_suffix-append prefix path_metadata)

strip_Known :
    {p : Bytes} (prefix : Bytes) → Known p → strip_known known_paths (prefix ++ p) ≡ prefix
strip_Known prefix evaluation = strip_evaluation prefix
strip_Known prefix evaluations = strip_evaluations prefix
strip_Known prefix metadata = strip_metadata prefix

Known-Rooted : {p : Bytes} → Known p → Rooted p
Known-Rooted evaluation = refl
Known-Rooted evaluations = refl
Known-Rooted metadata = refl

pub Rooted-append : (p q : Bytes) → Rooted p → Rooted q → Rooted (p ++ q)
Rooted-append [] q r s = s
Rooted-append (c ∷ p) q r s = r

pub SameSite-trans :
    (urls : UrlPackage) (u : Url) {root p text q : Bytes} (site : SameSite urls u root p)
    → SameSite urls site.url text q
    → SameSite urls u text q
SameSite-trans urls u site next = record {
  url = next.url;
  parses = next.parses;
  is_endpoint = next.is_endpoint;
  same_scheme = next.same_scheme ∙ site.same_scheme;
  same_host = next.same_host ∙ site.same_host;
  at_path = next.at_path;
}

abbrev pub EndsNotIn : Bytes → Bytes → Type 0
EndsNotIn s suffix = (front : Bytes) → s ≢ front ++ suffix

EndsNotIn-has_suffix : (s suffix : Bytes) → EndsNotIn s suffix → has_suffix s suffix ≡ false
EndsNotIn-has_suffix s suffix n = elim (Bool-cases (has_suffix s suffix)) [
  | inl ends ↦ absurd (n (trim_suffix s suffix) (trim_suffix_split s suffix ends))
  | inr h ↦ h
]

strip_unknown :
    (path : Bytes)
    → EndsNotIn path path_evaluations
    → EndsNotIn path path_evaluation
    → EndsNotIn path path_metadata
    → strip_known known_paths path ≡ path
unfolding strip_known
strip_unknown path a b c =
    rw
      (
        EndsNotIn-has_suffix path path_evaluations a,
        EndsNotIn-has_suffix path path_evaluation b,
        EndsNotIn-has_suffix path path_metadata c,
      )
      refl

module _ (urls : UrlPackage) (laws : UrlLaws urls) where
  -- From the URL of an accepted endpoint, whose path is a known one behind a prefix that does not
  -- end in a slash, the root and then any known path lead to the URL at that path behind the same
  -- prefix, which is of the same scheme and host and accepted too.
  rederive :
      {p q : Bytes} (raw : Bytes) (u : Url) (prefix : Bytes)
      → Accepts urls raw u
      → Known p
      → Known q
      → u.path ≡ prefix ++ p
      → has_suffix prefix (codes "/") ≡ false
      → (endpoint : Bytes) × ((root_of urls raw >>= λ root. resolve_from_root urls root q)
          ≡ ok endpoint)
        × SameSite urls u endpoint (prefix ++ q)
  rederive {p} {q} raw u prefix a k k' at_known plain =
      let (root, found, site) = root_of-SameSite urls laws raw u a in
      let no_slash : trim_suffix prefix (codes "/") ≡ prefix =
        trim_suffix_none prefix (codes "/") plain in
      let stripped : strip_known known_paths u.path ≡ prefix =
        ap (strip_known known_paths) at_known ∙ strip_Known prefix k in
      let left : trim_suffix (strip_known known_paths u.path) (codes "/") ≡ prefix =
        ap (λ s. trim_suffix s (codes "/")) stripped ∙ no_slash in
      let joined : trim_suffix site.url.path (codes "/") ++ q ≡ prefix ++ q =
        ap (λ s. trim_suffix s (codes "/") ++ q) (site.at_path ∙ left)
        ∙ ap (λ s. s ++ q) no_slash in
      let rooted : Rooted (prefix ++ q) =
        Rooted-append prefix q
          (front-Rooted prefix p (subst Rooted at_known (laws.rooted raw u a.0 a.1.hosted)))
          (Known-Rooted k') in
      let (endpoint, resolved, next) =
        resolve_from_root-SameSite urls laws root q site.url (site.parses, site.is_endpoint)
          (subst Rooted (sym joined) rooted) in
      (
        endpoint,
        rw found resolved,
        subst (SameSite urls u endpoint) joined (SameSite-trans urls u site next),
      )

  -- From a configured endpoint that is not empty and accepted, whose path is a known one behind a
  -- prefix that does not end in a slash, the batch endpoint is derived: at the plural path behind
  -- the same prefix, of the same scheme and host, and accepted too.
  pub batch_endpoint_from-SameSite :
      {p : Bytes} (configured : Bytes) (u : Url) (prefix : Bytes)
      → configured ≢ []
      → Accepts urls configured u
      → Known p
      → u.path ≡ prefix ++ p
      → has_suffix prefix (codes "/") ≡ false
      → (endpoint : Bytes) × (batch_endpoint_from urls configured ≡ ok endpoint)
        × SameSite urls u endpoint (prefix ++ path_evaluations)
  unfolding batch_endpoint_from
  batch_endpoint_from-SameSite configured u prefix ne a k e plain =
      let (endpoint, found, site) = rederive configured u prefix a k evaluations e plain in
      (endpoint, ground (arith, ne, found), site)

  -- A path that is not empty, ends in none of the paths /access/v1/evaluations, /access/v1/evaluation
  -- and /.well-known/authzen-configuration and in no slash stays in the root of an accepted endpoint,
  -- which so is not cut to the origin.
  pub root_of_unknown :
      (raw : Bytes) (u : Url)
      → Accepts urls raw u
      → u.path ≢ []
      → EndsNotIn u.path (codes "/access/v1/evaluations")
      → EndsNotIn u.path (codes "/access/v1/evaluation")
      → EndsNotIn u.path (codes "/.well-known/authzen-configuration")
      → EndsNotIn u.path (codes "/")
      → (root : Bytes) × (v : Url) × (root_of urls raw ≡ ok root)
        × (urls.parse root ≡ ok v)
        × (v.path ≡ u.path)
        × (v.path ≢ [])
  root_of_unknown raw u a ne no_plural no_single no_metadata no_slash =
      let (root, found, site) = root_of-SameSite urls laws raw u a in
      let same : site.url.path ≡ u.path =
        site.at_path
        ∙ ap (λ s. trim_suffix s (codes "/")) (strip_unknown u.path no_plural no_single no_metadata)
        ∙ trim_suffix_none u.path (codes "/") (EndsNotIn-has_suffix u.path (codes "/") no_slash) in
      (root, site.url, found, site.parses, same, λ e. ne (sym same ∙ e))
