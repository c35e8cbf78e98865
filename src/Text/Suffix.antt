-- ===== src/Text/Suffix.antt =====
-- `strings.HasSuffix` and `strings.TrimSuffix`.
use native.Mathlib.Nat.{zero-add, suc-add}
use mcp_opa.Base.{
  ℕ, ◌+◌, ◌≢◌, ◌-◌, ◌≤◌, ◌≡◌, refl, sym, ap, ◌∙◌, Bool, true, false, ◌&&◌, [], ◌∷◌, ◌++◌, arith,
  leb, Bytes, equal, equal_iff, equal_refl, length, take, drop, length-append, take-append-drop,
  if◌then◌else◌, Bool-cases, inl, inr,
}

-- `len(s) >= len(suffix) && s[len(s)-len(suffix):] == suffix`
unfoldable pub has_suffix : Bytes → Bytes → Bool
has_suffix s suffix =
    leb (length suffix) (length s) && equal (drop (length s - length suffix) s) suffix

unfoldable pub trim_suffix : Bytes → Bytes → Bytes
trim_suffix s suffix = if has_suffix s suffix then take (length s - length suffix) s else s

drop_front : (s t : Bytes) → drop (length s) (s ++ t) ≡ t
drop_front [] t = refl
drop_front (x ∷ s) t = drop_front s t

take_front : (s t : Bytes) → take (length s) (s ++ t) ≡ s
take_front [] t = refl
take_front (x ∷ s) t = ap (◌∷◌ x) (take_front s t)

front_length : (s t : Bytes) → length (s ++ t) - length t ≡ length s
front_length s t = omega (arith, length-append s t)

pub has_suffix-append : (s t : Bytes) → has_suffix (s ++ t) t ≡ true
unfolding has_suffix
has_suffix-append s t =
    rw (front_length s t, drop_front s t, equal_refl t) (ground (arith, length-append s t))

pub trim_suffix-append : (s t : Bytes) → trim_suffix (s ++ t) t ≡ s
unfolding trim_suffix
trim_suffix-append s t = rw (has_suffix-append s t, front_length s t) (take_front s t)

-- A text with the suffix is what is left of it, and the suffix.
pub trim_suffix_split : (s t : Bytes) → has_suffix s t ≡ true → s ≡ trim_suffix s t ++ t
unfolding trim_suffix
trim_suffix_split s t h = rw h (split h)
  where
    split : has_suffix s t ≡ true → s ≡ take (length s - length t) s ++ t
    split h =
        let e : drop (length s - length t) s ≡ t =
          (equal_iff _ _).0 (unfold has_suffix in ground (arith, h)) in
        sym (take-append-drop (length s - length t) s) ∙ ap (◌++◌ (take (length s - length t) s)) e

pub trim_suffix_none : (s t : Bytes) → has_suffix s t ≡ false → trim_suffix s t ≡ s
unfolding trim_suffix
trim_suffix_none s t h = rw h

pub length-trim_suffix : (s t : Bytes) → length (trim_suffix s t) ≤ length s
length-trim_suffix s t = elim (Bool-cases (has_suffix s t)) [
  | inl h ↦ omega (arith, ap length (trim_suffix_split s t h), length-append (trim_suffix s t) t)
  | inr h ↦ omega (arith, ap length (trim_suffix_none s t h))
]

drop_more : (k : ℕ) (s t : Bytes) → drop (length s + k) (s ++ t) ≡ drop k t
drop_more k [] t = rw zero-add
drop_more k (x ∷ s) t = rw suc-add (drop_more k s t)

-- A suffix that is no longer than the end of a text is a suffix of that end.
pub has_suffix-append_of_le :
    (s t suffix : Bytes)
    → length suffix ≤ length t
    → has_suffix (s ++ t) suffix ≡ has_suffix t suffix
unfolding has_suffix
has_suffix-append_of_le s t suffix h =
    let e : length (s ++ t) - length suffix ≡ length s + (length t - length suffix) =
      omega (arith, length-append s t) in
    rw (e, drop_more (length t - length suffix) s t) (ground (arith, length-append s t))

-- The last byte; 0 for the empty text.
abbrev pub last : Bytes → ℕ
last [] = 0
last (x ∷ []) = x
last (x ∷ y ∷ s) = last (y ∷ s)

pub last-append : (s : Bytes) (c : ℕ) (t : Bytes) → last (s ++ c ∷ t) ≡ last (c ∷ t)
last-append [] c t = refl
last-append (x ∷ []) c t = refl
last-append (x ∷ y ∷ s) c t = last-append (y ∷ s) c t

-- Texts that end in different bytes are not suffixes of one another.
pub has_suffix-last_ne :
    (s : Bytes) (c : ℕ) (suffix : Bytes)
    → last s ≢ last (c ∷ suffix)
    → has_suffix s (c ∷ suffix) ≡ false
has_suffix-last_ne s c suffix ne = elim (Bool-cases (has_suffix s (c ∷ suffix))) [
  | inl h ↦ absurd (
      ne (
        ap last (trim_suffix_split s (c ∷ suffix) h)
        ∙ last-append (trim_suffix s (c ∷ suffix)) c suffix))
  | inr h ↦ h
]
