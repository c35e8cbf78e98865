-- ===== src/Pdp/Roots.antt =====
-- The endpoints that are derived from a configured one.
use mcp_opa.Base.{◌≡◌, ◌≢◌, inl, inr, List, [], ◌∷◌, ◌++◌, Bytes, codes, arith, ok, Bool-cases}
use mcp_opa.Text.Suffix.{has_suffix, trim_suffix, trim_suffix_split, trim_suffix_none}
use mcp_opa.Pdp.Url.{Url, UrlPackage, resolve_from_root, strip_known, known_paths, root_of}
use mcp_opa.Pdp.Endpoint.{IsEndpoint, Accepts, validate_pdp_url_complete}

abbrev pub Rooted : Bytes → Type 0
Rooted [] = Unit
Rooted (c ∷ p) = c ≡ b'/'

-- What is left in front of a suffix is rooted, as the whole is.
pub front-Rooted : (p suffix : Bytes) → Rooted (p ++ suffix) → Rooted p
front-Rooted [] suffix r = tt
front-Rooted (c ∷ p) suffix r = r

pub trim_suffix-Rooted : (p suffix : Bytes) → Rooted p → Rooted (trim_suffix p suffix)
trim_suffix-Rooted p suffix r = elim (Bool-cases (has_suffix p suffix)) [
  | inl h ↦ front-Rooted (trim_suffix p suffix) suffix (rw (trim_suffix_split p suffix h) at r)
  | inr h ↦ rw (trim_suffix_none p suffix h) r
]

strip_known-Rooted : (ps : List Bytes) (p : Bytes) → Rooted p → Rooted (strip_known ps p)
unfolding strip_known
strip_known-Rooted [] p r = r
strip_known-Rooted (q ∷ ps) p r = elim (Bool-cases (has_suffix p q)) [
  | inl h ↦ rw h (trim_suffix-Rooted p q r)
  | inr h ↦ rw h (strip_known-Rooted ps p r)
]

-- What the documentation of net/url says of the URLs at hand: behind a host the path is empty or
-- begins with a slash, and the text of a URL is read back with the same scheme, host, user and
-- path.
pub record UrlLaws (urls : UrlPackage) : Type 0 where
  pub rooted : (raw : Bytes) (u : Url) → urls.parse raw ≡ ok u → u.host ≢ [] → Rooted u.path
  pub reparse :
      (raw : Bytes) (u : Url) (p : Bytes)
      → urls.parse raw ≡ ok u
      → IsEndpoint u
      → Rooted p
      → (v : Url) × (urls.parse (urls.render (record u { path = p; raw_query = []; fragment = [] }))
          ≡ ok v)
        × (v.scheme ≡ u.scheme)
        × (v.host ≡ u.host)
        × (v.user ≡ u.user)
        × (v.path ≡ p)

module _ (urls : UrlPackage) where
  -- A URL that belongs to an endpoint's site, at a path of its own.
  pub record SameSite (u : Url) (text path : Bytes) : Type 0 where
    pub url : Url
    pub parses : urls.parse text ≡ ok url
    pub is_endpoint : IsEndpoint url
    pub same_scheme : url.scheme ≡ u.scheme
    pub same_host : url.host ≡ u.host
    pub at_path : url.path ≡ path

  module _ (laws : UrlLaws urls) where
    render-SameSite :
        (raw : Bytes) (u : Url) (p : Bytes)
        → Accepts urls raw u
        → Rooted p
        → SameSite u (urls.render (record u { path = p; raw_query = []; fragment = [] })) p
    render-SameSite raw u p (parsed, e) r =
        let (v, again, scheme, host, user, path) = laws.reparse raw u p parsed e r in
        record {
          url = v;
          parses = again;
          is_endpoint = record {
            http = ground (arith, e.http);
            hosted = ground (arith, e.hosted);
            no_user = ground (arith, e.no_user);
          };
          same_scheme = scheme;
          same_host = host;
          at_path = path;
        }

    -- The root of an accepted endpoint is on its site, at the path that is left.
    pub root_of-SameSite :
        (raw : Bytes) (u : Url)
        → Accepts urls raw u
        → (root : Bytes) × (root_of urls raw ≡ ok root)
          × SameSite u root (trim_suffix (strip_known known_paths u.path) (codes "/"))
    unfolding root_of
    root_of-SameSite raw u a = (
      urls.render (record u {
        path = trim_suffix (strip_known known_paths u.path) (codes "/");
        raw_query = [];
        fragment = [];
      }),
      rw (validate_pdp_url_complete urls raw u a, a.0),
      render-SameSite raw u _ a (
          trim_suffix-Rooted _ _
            (strip_known-Rooted known_paths u.path (laws.rooted raw u a.0 a.1.hosted))),
    )

    pub resolve_from_root-SameSite :
        (root path : Bytes) (u : Url)
        → Accepts urls root u
        → Rooted (trim_suffix u.path (codes "/") ++ path)
        → (endpoint : Bytes) × (resolve_from_root urls root path ≡ ok endpoint)
          × SameSite u endpoint (trim_suffix u.path (codes "/") ++ path)
    unfolding resolve_from_root
    resolve_from_root-SameSite root path u a r = (
      urls.render (record u {
        path = trim_suffix u.path (codes "/") ++ path;
        raw_query = [];
        fragment = [];
      }),
      rw (validate_pdp_url_complete urls root u a, a.0),
      render-SameSite root u _ a r,
    )
