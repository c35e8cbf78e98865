-- ===== src/Tests/Site.antt =====
-- A small net/url for tests: it knows the URLs of one host, and keeps their paths.
use mcp_opa.Base.{
  ◌≡◌, refl, Bool, true, false, [], ◌∷◌, ◌++◌, Option, none, some, Bytes, codes, if◌then◌else◌,
  Result, ok, err, ◌==◌, arith, inl, inr, Option-cases, Bool-cases, ap, sym,
}
use mcp_opa.Pdp.Url.{Url, UrlPackage}
use mcp_opa.Pdp.Endpoint.{IsEndpoint}
use mcp_opa.Pdp.Roots.{UrlLaws, Rooted}

abbrev pub origin : Bytes
origin = codes "http://h"

abbrev pub behind : Bytes → Bytes → Option Bytes
behind [] s = some s
behind (p ∷ ps) [] = none
behind (p ∷ ps) (c ∷ s) = let rest = behind ps s in if p == c then rest else none

abbrev pub is_rooted : Bytes → Bool
is_rooted [] = true
is_rooted (c ∷ p) = c == b'/'

abbrev pub at : Bytes → Url
at path = record {
  scheme = codes "http";
  opaque = [];
  user = none;
  host = codes "h";
  path = path;
  raw_path = [];
  force_query = false;
  raw_query = [];
  fragment = [];
  raw_fragment = [];
}

abbrev pub parse_path : Bytes → Result Bytes Url
parse_path path = if is_rooted path then ok (at path) else err (codes "no path")

abbrev pub site : UrlPackage
site = record {
  parse = λ raw. elim (behind origin raw) [
    | none ↦ err (codes "no host")
    | some path ↦ parse_path path
  ];
  render = λ u. origin ++ u.path;
}

is_rooted-Rooted : (p : Bytes) → is_rooted p ≡ true → Rooted p
is_rooted-Rooted [] h = tt
is_rooted-Rooted (c ∷ p) h = ground arith

Rooted-is_rooted : (p : Bytes) → Rooted p → is_rooted p ≡ true
Rooted-is_rooted [] h = refl
Rooted-is_rooted (c ∷ p) h = ground arith

-- Only a URL at a rooted path is parsed.
parsed : (raw : Bytes) (u : Url) → site.parse raw ≡ ok u → (p : Bytes) × Rooted p × (u ≡ at p)
parsed raw u h = elim (Option-cases (behind origin raw)) [
  | inl no_host ↦ absurd (ground (arith, no_host))
  | inr (p, found) ↦ elim (Bool-cases (is_rooted p)) [
    | inl rooted ↦ (p, is_rooted-Rooted p rooted, ground (arith, found, rooted))
    | inr loose ↦ absurd (ground (arith, found, loose))
  ]
]

reparsed : (p : Bytes) → Rooted p → site.parse (origin ++ p) ≡ ok (at p)
reparsed p r = ground (arith, Rooted-is_rooted p r)

pub site-UrlLaws : UrlLaws site
site-UrlLaws = record {
  rooted = λ raw u h hosted. let (p, r, e) = parsed raw u h in rw e r;
  reparse = λ raw u p h endpoint r.
      let (q, s, e) = parsed raw u h in
      (
        at p,
        reparsed p r,
        ap (λ (v : Url). v.scheme) (sym e),
        ap (λ (v : Url). v.host) (sym e),
        ap (λ (v : Url). v.user) (sym e),
        refl,
      );
}

pub at-IsEndpoint : (p : Bytes) → IsEndpoint (at p)
at-IsEndpoint p = record { http = inl refl; hosted = λ e. cc; no_user = refl }
