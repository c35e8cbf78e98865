-- ===== src/Text/Search.antt =====
-- `strings.Cut` at a byte, `strings.Contains`, and `strings.ToLower` as far as a comparison with
-- an ASCII word sees it.
use mcp_opa.Base.{
  ℕ, zero, suc, ◌+◌, ◌≡◌, Bool, true, false, ◌&&◌, ◌||◌, [], ◌∷◌, ◌++◌, arith, leb, Option, none,
  some, ◌==◌, Bytes, is_empty, if◌then◌else◌, All, ◌≢◌, Bool-cases, Option-cases, inl, inr,
}

-- The text before the first separator and the text behind it; none if there is no separator.
unfoldable pub cut : ℕ → Bytes → Option (Bytes × Bytes)
cut sep [] = none
cut sep (x ∷ s) =
    if x == sep
    then some ([], s)
    else elim (cut sep s) [ none ↦ none | some (b, a) ↦ some (x ∷ b, a) ]

unfoldable pub is_prefix : Bytes → Bytes → Bool
is_prefix [] s = true
is_prefix (x ∷ p) [] = false
is_prefix (x ∷ p) (y ∷ s) = x == y && is_prefix p s

unfoldable pub contains : Bytes → Bytes → Bool
unfolding is_prefix
contains sub [] = is_empty sub
contains sub (x ∷ s) = is_prefix sub (x ∷ s) || contains sub s

-- The two letters beyond ASCII whose lower case is an ASCII letter: U+0130, which is 0xC4 0xB0,
-- to `i`, and U+212A, which is 0xE2 0x84 0xAA, to `k`. With the byte comes how many further bytes the
-- letter has. Any other letter beyond ASCII has a lower case beyond ASCII; its bytes are kept,
-- and like those of its lower case they occur in no ASCII word.
lower_letter : ℕ → Bytes → ℕ × ℕ
lower_letter a (b ∷ c ∷ s) =
    if a == 0xC4 && b == 0xB0
    then (b'i', 1)
    else if a == 0xE2 && (b == 0x84 && c == 0xAA)
    then (b'k', 2)
    else (a, 0)
lower_letter a (b ∷ []) = if a == 0xC4 && b == 0xB0 then (b'i', 1) else (a, 0)
lower_letter a [] = (a, 0)

abbrev is_upper : ℕ → Bool
is_upper c = leb b'A' c && leb c b'Z'

lower_from : ℕ → Bytes → Bytes
unfolding lower_letter
lower_from skip [] = []
lower_from (suc skip) (x ∷ s) = lower_from skip s
lower_from zero (x ∷ s) =
    let plain = lower_from zero s in
    let letter = lower_letter x s in
    let later = lower_from letter.1 s in if is_upper x then (x + 32) ∷ plain else letter.0 ∷ later

unfoldable pub to_lower : Bytes → Bytes
unfolding lower_from
to_lower s = lower_from 0 s

-- The separator stands between the two parts, and not in the first.
pub cut_sound :
    (sep : ℕ) (s : Bytes) {b a : Bytes}
    → cut sep s ≡ some (b, a)
    → (s ≡ b ++ sep ∷ a) × All (λ x. x ≢ sep) b
unfolding cut
cut_sound sep [] h = cc
cut_sound sep (x ∷ s) {b} {a} h = elim (Bool-cases (x == sep)) [
  | inl here ↦ ground (arith, h)
  | inr later ↦ elim (Option-cases (cut sep s)) [
    | inl missing ↦ ground (arith, h, missing)
    | inr (parts, found) ↦ ground (arith, h, found, cut_sound sep s found)
  ]
]

pub cut_complete :
    (sep : ℕ) (b a : Bytes) → All (λ x. x ≢ sep) b → cut sep (b ++ sep ∷ a) ≡ some (b, a)
unfolding cut
cut_complete sep [] a h = ground arith
cut_complete sep (x ∷ b) a (ne, h) = ground (arith, ne, cut_complete sep b a h)
