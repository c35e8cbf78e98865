-- ===== src/Pdp/Auth.antt =====
-- The Authorization header, and the text that a failure quotes.
use mcp_opa.Base.{
  Bool-cases, equal_iff, false, ◌≤◌, ◌<◌, ◌≡◌, ◌≢◌, ◌⊎◌, ◌↔◌, inl, inr, refl, true, false, List, [],
  ◌∷◌, ◌++◌, Option, none, some, Bytes, codes, equal, is_empty, if◌then◌else◌, String, str_eq,
  str_eq_iff, length, arith, any, All, Option-cases,
}
use mcp_opa.Text.Search.{cut, cut_sound, cut_complete, to_lower}
use mcp_opa.Text.Trim.{trim_space}
use mcp_opa.Text.Truncate.{length-truncate, length-truncate_ge}
use mcp_opa.Pdp.Client.{set_header, auth_schemes, has_auth_scheme, set_auth, snippet}

-- `req.Header.Get`, with none for a header that is not there.
unfoldable pub header : String → List (String × Bytes) → Option Bytes
header name [] = none
header name ((n, w) ∷ hs) = if str_eq n name then some w else header name hs

header-set_header :
    (name other : String) (v : Bytes) (hs : List (String × Bytes))
    → header other (set_header name v hs) ≡ (if str_eq name other then some v else header other hs)
unfolding header set_header
header-set_header name other v [] = refl
header-set_header name other v ((n, w) ∷ hs) = ground (
  arith,
  str_eq_iff name other,
  str_eq_iff n name,
  str_eq_iff n other,
  header-set_header name other v hs,
)

-- The first word of a token, before a blank, is, in lower case, bearer, basic or dpop.
abbrev pub NamesScheme : Bytes → Type 0
NamesScheme token =
    (scheme : Bytes) × (rest : Bytes) × (token ≡ scheme ++ b' ' ∷ rest)
    × All (λ c. c ≢ b' ') scheme
    × ((to_lower scheme ≡ codes "bearer")
        ⊎ (to_lower scheme ≡ codes "basic")
        ⊎ (to_lower scheme ≡ codes "dpop"))

listed_sound :
    (s : Bytes)
    → any (equal s) auth_schemes ≡ true
    → (s ≡ codes "bearer") ⊎ (s ≡ codes "basic") ⊎ (s ≡ codes "dpop")
listed_sound s h = elim (Bool-cases (equal s (codes "bearer"))) [
  | inl e ↦ inl ((equal_iff _ _).0 e)
  | inr n ↦ elim (Bool-cases (equal s (codes "basic"))) [
    | inl e ↦ inr (inl ((equal_iff _ _).0 e))
    | inr m ↦ inr (inr ((equal_iff _ _).0 (ground (arith, h, n, m))))
  ]
]

listed_complete :
    (s : Bytes)
    → (s ≡ codes "bearer") ⊎ (s ≡ codes "basic") ⊎ (s ≡ codes "dpop")
    → any (equal s) auth_schemes ≡ true
unfolding equal
listed_complete s (inl e) = rw e refl
listed_complete s (inr (inl e)) = rw e refl
listed_complete s (inr (inr e)) = rw e refl

has_auth_scheme_sound : (token : Bytes) → has_auth_scheme token ≡ true → NamesScheme token
unfolding has_auth_scheme
has_auth_scheme_sound token h = elim (Option-cases (cut b' ' token)) [
  | inl no_blank ↦ ground (arith, no_blank)
  | inr ((scheme, rest), found) ↦
      let (splits, plain) = cut_sound b' ' token found in
      (
        scheme,
        rest,
        splits,
        plain,
        listed_sound (to_lower scheme) (rw (found, has_auth_scheme) at h),
      )
]

has_auth_scheme_complete : (token : Bytes) → NamesScheme token → has_auth_scheme token ≡ true
unfolding has_auth_scheme
has_auth_scheme_complete token (scheme, rest, splits, plain, known) = rw splits (
    rw (cut_complete b' ' scheme rest plain, has_auth_scheme)
      (listed_complete (to_lower scheme) known))

-- A token names its scheme exactly when a blank follows a first word without blanks that is, in
-- lower case, bearer, basic or dpop.
has_auth_scheme_iff : (token : Bytes) → (has_auth_scheme token ≡ true) ↔ NamesScheme token
has_auth_scheme_iff token = (has_auth_scheme_sound token, has_auth_scheme_complete token)

-- The token that is sent for a configured one that is not blank.
abbrev pub SendsToken : Bytes → Bytes → Type 0
SendsToken configured sent =
    ((sent ≡ trim_space configured) × NamesScheme (trim_space configured))
    ⊎ ((sent ≡ codes "Bearer " ++ trim_space configured) × (¬ NamesScheme (trim_space configured)))

bearer-has_auth_scheme : (token : Bytes) → has_auth_scheme (codes "Bearer " ++ token) ≡ true
unfolding has_auth_scheme cut to_lower equal
bearer-has_auth_scheme token = refl

-- Where a token is configured the header that is sent names a scheme, the token's own or Bearer,
-- and never both; the rest of the headers stays.
pub record IsAuthorized (configured : Bytes) (hs : List (String × Bytes)) : Type 0 where
  pub sent : Bytes
  pub is_sent : header "Authorization" (set_auth configured hs) ≡ some sent
  pub names_scheme : NamesScheme sent
  pub is_token : SendsToken configured sent
  pub others :
      (name : String)
      → name ≢ "Authorization"
      → header name (set_auth configured hs) ≡ header name hs

set_auth_value : Bytes → Bytes
set_auth_value configured =
    if has_auth_scheme (trim_space configured)
    then trim_space configured
    else codes "Bearer " ++ trim_space configured

set_auth_value_lem :
    (configured : Bytes)
    → NamesScheme (set_auth_value configured) × SendsToken configured (set_auth_value configured)
unfolding set_auth_value
set_auth_value_lem configured = elim (Bool-cases (has_auth_scheme (trim_space configured))) [
  | inl named ↦
      let n = has_auth_scheme_sound (trim_space configured) named in
      (rw named n, rw named (inl (refl, n)))
  | inr plain ↦ (
    rw plain (
        has_auth_scheme_sound (codes "Bearer " ++ trim_space configured)
          (bearer-has_auth_scheme (trim_space configured))),
    rw plain (
        inr (refl, λ n. ground (arith, has_auth_scheme_complete (trim_space configured) n, plain))),
  )
]

set_auth_step :
    (configured : Bytes) (hs : List (String × Bytes))
    → is_empty (trim_space configured) ≡ false
    → set_auth configured hs ≡ set_header "Authorization" (set_auth_value configured) hs
unfolding set_auth set_auth_value
set_auth_step configured hs h = rw h

-- With a token that is not blank, the Authorization header holds the trimmed token if its first word,
-- before a blank, is bearer, basic or dpop in any case, and otherwise the token behind "Bearer "; so
-- it always names one of these. The other headers stay.
pub set_auth-IsAuthorized :
    (configured : Bytes) (hs : List (String × Bytes))
    → is_empty (trim_space configured) ≡ false
    → IsAuthorized configured hs
set_auth-IsAuthorized configured hs h = record {
  sent = set_auth_value configured;
  is_sent =
      rw (set_auth_step configured hs h) (header-set_header "Authorization" "Authorization" _ hs);
  names_scheme = (set_auth_value_lem configured).0;
  is_token = (set_auth_value_lem configured).1;
  others = λ name ne. rw (set_auth_step configured hs h) (
      rw (header-set_header "Authorization" name (set_auth_value configured) hs)
        (ground (arith, str_eq_iff "Authorization" name)));
}

length_pos : (s : Bytes) → is_empty s ≡ false → 0 < length s
length_pos [] h = cc
length_pos (x ∷ s) h = omega arith

-- What a failure quotes of a response is never empty, and at most 527 bytes long.
snippet_bounds : (b : Bytes) → (0 < length (snippet b)) × (length (snippet b) ≤ 527)
unfolding snippet
snippet_bounds b = (
  ground (arith, length_pos (trim_space b), length-truncate_ge 512 (trim_space b)),
  ground (arith, length-truncate 512 (trim_space b)),
)
