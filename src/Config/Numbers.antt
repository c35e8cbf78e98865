-- ===== src/Config/Numbers.antt =====
-- `strconv.ParseInt(s, 10, 64)` and `strconv.ParseBool(s)`, as config.go calls them.
use mcp_opa.Base.{
  ℕ, zero, suc, ◌+◌, ◌-◌, ◌*◌, ◌/◌, ◌^◌, ◌≤◌, ◌<◌, ◌≡◌, ap, ◌∙◌, Bool, true, false, ◌&&◌, ◌||◌,
  List, [], ◌∷◌, arith, leb, ltb, ◌==◌, Bytes, codes, equal, if◌then◌else◌, any, Result, ok, err,
  ◌>>=◌, All, Bool-cases, inl, inr,
}

-- `negsuc n` is -(n + 1).
pub data ℤ : Type 0 where
  pos : ℕ → ℤ
  negsuc : ℕ → ℤ

abbrev pub negate : ℕ → ℤ
negate zero = pos 0
negate (suc n) = negsuc n

-- `strconv.ErrSyntax` and `strconv.ErrRange`.
pub data NumError : Type 0 where
  syntax range : NumError

abbrev pub is_digit : ℕ → Bool
is_digit c = leb b'0' c && leb c b'9'

abbrev max_uint64 : ℕ
max_uint64 = 2 ^ 64 - 1

-- The loop of `ParseUint` over the digits: `n >= cutoff` and `n1 < n || n1 > maxVal` are the two
-- tests of the overflow.
parse_digits : ℕ → Bytes → Result NumError ℕ
parse_digits n [] = ok n
parse_digits n (c ∷ s) =
    let rest = parse_digits (n * 10 + (c - b'0')) s in
    if is_digit c
    then if leb (max_uint64 / 10 + 1) n || ltb max_uint64 (n * 10 + (c - b'0'))
      then err range
      else rest
    else err syntax

parse_uint : Bytes → Result NumError ℕ
parse_uint [] = err syntax
parse_uint (c ∷ s) = parse_digits 0 (c ∷ s)

-- `!neg && un >= cutoff`, and `neg && un > cutoff`.
signed : Bool → ℕ → Result NumError ℤ
signed false n = if leb (2 ^ 63) n then err range else ok (pos n)
signed true n = if ltb (2 ^ 63) n then err range else ok (negate n)

unfoldable pub parse_int : Bytes → Result NumError ℤ
unfolding signed parse_uint parse_digits
parse_int [] = err syntax
parse_int (c ∷ s) =
    if c == b'+'
    then parse_uint s >>= signed false
    else if c == b'-'
    then parse_uint s >>= signed true
    else parse_uint (c ∷ s) >>= signed false

abbrev pub true_words : List Bytes
true_words = codes "1" ∷ codes "t" ∷ codes "T" ∷ codes "TRUE" ∷ codes "true" ∷ codes "True" ∷ []

abbrev pub false_words : List Bytes
false_words = codes "0" ∷ codes "f" ∷ codes "F" ∷ codes "FALSE" ∷ codes "false" ∷ codes "False" ∷ []

unfoldable pub parse_bool : Bytes → Result NumError Bool
parse_bool s =
    if any (equal s) true_words
    then ok true
    else if any (equal s) false_words
    then ok false
    else err syntax

-- The number that a row of digits stands for, behind those read already.
abbrev pub value : ℕ → Bytes → ℕ
value n [] = n
value n (c ∷ s) = value (n * 10 + (c - b'0')) s

value-le : (n : ℕ) (s : Bytes) → n ≤ value n s
value-le n [] = omega arith
value-le n (c ∷ s) = omega (arith, value-le (n * 10 + (c - b'0')) s)

abbrev pub AreDigits : Bytes → Type 0
AreDigits s = All (λ c. is_digit c ≡ true) s

parse_digits-value :
    (n : ℕ) (s : Bytes)
    → AreDigits s
    → n ≤ max_uint64
    → parse_digits n s ≡ (if leb (value n s) max_uint64 then ok (value n s) else err range)
unfolding parse_digits
parse_digits-value n [] d h = ground arith
parse_digits-value n (c ∷ s) (d, ds) h =
    ground (arith, parse_digits-value (n * 10 + (c - b'0')) s ds, value-le (n * 10 + (c - b'0')) s)

parse_int_unsigned :
    (c : ℕ) (s : Bytes)
    → is_digit c ≡ true
    → parse_int (c ∷ s) ≡ (parse_digits 0 (c ∷ s) >>= signed false)
unfolding parse_int
parse_int_unsigned c s d = ground arith

signed_of_value :
    (n : ℕ)
    → ((if leb n max_uint64 then ok n else err range) >>= signed false)
      ≡ (if ltb n (2 ^ 63) then ok (pos n) else err range)
unfolding signed
signed_of_value n = ground arith

-- An unsigned row of digits is read as its value if that is an int64, and is out of range
-- otherwise.
parse_int-value :
    (c : ℕ) (s : Bytes)
    → AreDigits (c ∷ s)
    → parse_int (c ∷ s)
      ≡ (if ltb (value 0 (c ∷ s)) (2 ^ 63) then ok (pos (value 0 (c ∷ s))) else err range)
parse_int-value c s (d, ds) =
    parse_int_unsigned c s d
    ∙ ap (λ r. r >>= signed false) (parse_digits-value 0 (c ∷ s) (d, ds) (omega arith))
    ∙ signed_of_value (value 0 (c ∷ s))

-- What is read is an int64.
signed_bounds : (neg : Bool) (n : ℕ) {k : ℕ} → signed neg n ≡ ok (pos k) → k < 2 ^ 63
unfolding signed
signed_bounds false n h = ground arith
signed_bounds true zero h = ground arith
signed_bounds true (suc n) h = ground arith

read_bounds :
    (neg : Bool) (m : Result NumError ℕ) {k : ℕ} → (m >>= signed neg) ≡ ok (pos k) → k < 2 ^ 63
read_bounds neg (ok n) h = signed_bounds neg n h
read_bounds neg (err e) h = cc

pub parse_int_bounds : (s : Bytes) {k : ℕ} → parse_int s ≡ ok (pos k) → k < 2 ^ 63
unfolding parse_int
parse_int_bounds [] h = cc
parse_int_bounds (c ∷ s) {k} h = elim (Bool-cases (c == b'+')) [
  | inl plus ↦ read_bounds false (parse_uint s) (rw plus at h)
  | inr other ↦ elim (Bool-cases (c == b'-')) [
    | inl minus ↦ read_bounds true (parse_uint s) (rw (other, minus) at h)
    | inr digit ↦ read_bounds false (parse_uint (c ∷ s)) (rw (other, digit) at h)
  ]
]
