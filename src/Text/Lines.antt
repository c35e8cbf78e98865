-- ===== src/Text/Lines.antt =====
-- `strings.TrimRight(s, "\n")` and `strings.Split(s, "\n")`, at any byte.
use mcp_opa.Base.{
  ℕ, ◌≤◌, ◌≡◌, refl, ap, true, false, ◌&&◌, List, [], ◌∷◌, ◌++◌, arith, ◌==◌, Bytes, is_empty,
  if◌then◌else◌, length, Bool-cases, inl, inr,
}

unfoldable pub trim_end : ℕ → Bytes → Bytes
trim_end c [] = []
trim_end c (x ∷ s) = let rest = trim_end c s in if is_empty rest && x == c then [] else x ∷ rest

-- A byte put in front of the first part.
abbrev pub onto_first : ℕ → List Bytes → List Bytes
onto_first x [] = (x ∷ []) ∷ []
onto_first x (p ∷ ps) = (x ∷ p) ∷ ps

unfoldable pub split : ℕ → Bytes → List Bytes
split c [] = [] ∷ []
split c (x ∷ s) = let rest = split c s in if x == c then [] ∷ rest else onto_first x rest

-- `strings.Join`
abbrev pub join : ℕ → List Bytes → Bytes
join c [] = []
join c (p ∷ []) = p
join c (p ∷ q ∷ ps) = p ++ c ∷ join c (q ∷ ps)

pub length-trim_end : (c : ℕ) (s : Bytes) → length (trim_end c s) ≤ length s
unfolding trim_end
length-trim_end c [] = omega arith
length-trim_end c (x ∷ s) = ground (arith, length-trim_end c s)

split-ne-nil : (c : ℕ) (s : Bytes) → is_empty (split c s) ≡ false
unfolding split
split-ne-nil c [] = refl
split-ne-nil c (x ∷ s) = ground (arith, split-ne-nil c s)

join-onto_first :
    (c x : ℕ) (ps : List Bytes) → is_empty ps ≡ false → join c (onto_first x ps) ≡ x ∷ join c ps
join-onto_first c x [] h = cc
join-onto_first c x (p ∷ []) h = refl
join-onto_first c x (p ∷ q ∷ ps) h = refl

join-nil : (c : ℕ) (ps : List Bytes) → is_empty ps ≡ false → join c ([] ∷ ps) ≡ c ∷ join c ps
join-nil c [] h = cc
join-nil c (p ∷ ps) h = refl

-- The lines, joined again, are the text.
pub join-split : (c : ℕ) (s : Bytes) → join c (split c s) ≡ s
unfolding split
join-split c [] = refl
join-split c (x ∷ s) = elim (Bool-cases (x == c)) [
  | inl e ↦ rw (e, join-nil c (split c s) (split-ne-nil c s)) (cc (join-split c s, same e))
  | inr e ↦ rw (e, join-onto_first c x (split c s) (split-ne-nil c s)) (ap (◌∷◌ x) (join-split c s))
]
  where
    same : (x == c) ≡ true → x ≡ c
    same e = ground arith
