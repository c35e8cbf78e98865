-- ===== src/Text/Trim.antt =====
-- `strings.TrimSpace`: the white-space characters of Unicode, as they are encoded in UTF-8, are
-- taken off both ends.
use mcp_opa.Base.{
  ℕ, zero, suc, ◌≤◌, ◌≡◌, refl, Bool, ◌&&◌, ◌||◌, [], ◌∷◌, reverse, arith, leb, ◌==◌, Bytes, length,
  length-append, if◌then◌else◌,
}
use mathlib.Core.List.{reverse-cons}

-- \t \n \v \f \r and the blank.
abbrev is_space : ℕ → Bool
is_space c = (leb b'\t' c && leb c b'\r') || c == b' '

-- U+0085 and U+00A0.
abbrev is_space_of_two : ℕ → ℕ → Bool
is_space_of_two a b = a == 0xC2 && (b == 0x85 || b == 0xA0)

-- U+1680, U+2000 to U+200A, U+2028, U+2029, U+202F, U+205F and U+3000.
abbrev is_space_of_three : ℕ → ℕ → ℕ → Bool
is_space_of_three a b c =
    (a == 0xE1 && (b == 0x9A && c == 0x80))
    || (a == 0xE2
        && (b == 0x80 && ((leb 0x80 c && leb c 0x8A) || (c == 0xA8 || (c == 0xA9 || c == 0xAF)))))
    || (a == 0xE2 && (b == 0x81 && c == 0x9F))
    || (a == 0xE3 && (b == 0x80 && c == 0x80))

-- How many bytes after the first belong to the white-space character that begins there; none if
-- there is no such character.
pub data Width : Type 0 where
  no_space : Width
  space : ℕ → Width

three_front : ℕ → Bytes → Width
three_front a (b ∷ c ∷ s) = if is_space_of_three a b c then space 2 else no_space
three_front a _ = no_space

two_front : ℕ → Bytes → Width
two_front a (b ∷ s) = if is_space_of_two a b then space 1 else three_front a (b ∷ s)
two_front a [] = no_space

-- At the front of a text.
front_width : ℕ → Bytes → Width
unfolding two_front three_front
front_width a s = if is_space a then space 0 else two_front a s

three_back : ℕ → Bytes → Width
three_back c (b ∷ a ∷ s) = if is_space_of_three a b c then space 2 else no_space
three_back c _ = no_space

two_back : ℕ → Bytes → Width
two_back b (a ∷ s) = if is_space_of_two a b then space 1 else three_back b (a ∷ s)
two_back b [] = no_space

-- At the front of a reversed text.
back_width : ℕ → Bytes → Width
unfolding two_back three_back
back_width a s = if is_space a then space 0 else two_back a s

-- Skips the bytes counted, then one character after another.
strip : (ℕ → Bytes → Width) → ℕ → Bytes → Bytes
strip width skip [] = []
strip width (suc skip) (x ∷ s) = strip width skip s
strip width zero (x ∷ s) = elim (width x s) [ no_space ↦ x ∷ s | space k ↦ strip width k s ]

unfoldable pub trim_space : Bytes → Bytes
unfolding strip front_width back_width
trim_space s = reverse (strip back_width 0 (reverse (strip front_width 0 s)))

length-strip :
    (width : ℕ → Bytes → Width) (skip : ℕ) (s : Bytes) → length (strip width skip s) ≤ length s
unfolding strip
length-strip width skip [] = omega arith
length-strip width (suc skip) (x ∷ s) = omega (arith, length-strip width skip s)
length-strip width zero (x ∷ s) = by_width (width x s) (λ k. length-strip width k s)
  where
    by_width :
        (w : Width)
        → ((k : ℕ) → length (strip width k s) ≤ length s)
        → length (elim w [ no_space ↦ x ∷ s | space k ↦ strip width k s ]) ≤ suc (length s)
    by_width no_space ih = omega arith
    by_width (space k) ih = omega (arith, ih k)

length-reverse : (s : Bytes) → length (reverse s) ≡ length s
length-reverse [] = refl
length-reverse (x ∷ s) =
    rw reverse-cons (omega (arith, length-append (reverse s) (x ∷ []), length-reverse s))

pub length-trim_space : (s : Bytes) → length (trim_space s) ≤ length s
unfolding trim_space
length-trim_space s = omega (
  arith,
  length-strip front_width 0 s,
  length-reverse (strip front_width 0 s),
  length-strip back_width 0 (reverse (strip front_width 0 s)),
  length-reverse (strip back_width 0 (reverse (strip front_width 0 s))),
)
