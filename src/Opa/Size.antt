-- ===== src/Opa/Size.antt =====
-- tool_opa.go: `encodesWithin` and `countingWriter`. The encoder is a parameter; `Encode` of a
-- `json.Encoder` writes the encoding with a newline behind it.
use mcp_opa.Base.{
  ℕ, ◌+◌, ◌≡◌, ◌≤◌, ◌↔◌, inl, inr, refl, ap, sym, ◌∙◌, Bool, true, false, not, List, [], ◌∷◌, ◌++◌,
  Bytes, length, ltb, if◌then◌else◌, arith, ok, err, ok-injective, Bool-cases, Result-cases,
  length-append,
}
use mcp_opa.Json.{Encode}

pub record CountingWriter : Type 0 where
  pub n : ℕ
  pub limit : ℕ
  pub exceeded : Bool

unfoldable pub write : CountingWriter → Bytes → CountingWriter
write w p =
    let n = w.n + length p in
    if ltb w.limit n then record w { n = n; exceeded = true } else record w { n = n }

unfoldable pub write_all : CountingWriter → List Bytes → CountingWriter
write_all w [] = w
write_all w (p ∷ ps) = write_all (write w p) ps

unfoldable pub encodes_within : {A : Type 0} → Encode A → A → ℕ → Bool
encodes_within encode v limit = elim (encode v) [
  | err e ↦ false
  | ok text ↦
      not
        (write_all (record { n = 0; limit = limit; exceeded = false })
          ((text ++ b'\n' ∷ []) ∷ [])).exceeded
]

abbrev size : List Bytes → ℕ
size [] = 0
size (p ∷ ps) = length p + size ps

-- A writer that counts right so far.
record Counts (w : CountingWriter) : Type 0 where
  exact : w.exceeded ≡ ltb w.limit w.n

write-Counts :
    (w : CountingWriter) (p : Bytes)
    → Counts w
    → Counts (write w p) × ((write w p).n ≡ w.n + length p) × ((write w p).limit ≡ w.limit)
unfolding write
write-Counts w p c = (record { exact = ground (arith, c.exact) }, ground arith, ground arith)

write_all-Counts :
    (w : CountingWriter) (ps : List Bytes)
    → Counts w
    → Counts (write_all w ps)
      × ((write_all w ps).n ≡ w.n + size ps)
      × ((write_all w ps).limit ≡ w.limit)
unfolding write_all
write_all-Counts w [] c = (c, omega arith, refl)
write_all-Counts w (p ∷ ps) c =
    let (d, n, l) = write-Counts w p c in
    let (d', n', l') = write_all-Counts (write w p) ps d in (d', omega (arith, n, n'), l' ∙ l)

-- However an encoding is cut into writes, the writer reports an excess exactly when the writes
-- together are over the limit.
pub write_all_exceeded :
    (limit : ℕ) (ps : List Bytes)
    → (write_all (record { n = 0; limit = limit; exceeded = false }) ps).exceeded
      ≡ ltb limit (size ps)
write_all_exceeded limit ps =
    let start : CountingWriter = record { n = 0; limit = limit; exceeded = false } in
    let (c, n, l) = write_all-Counts start ps (record { exact = ground arith }) in
    c.exact ∙ ground (arith, n, l)

-- A value is found to fit exactly when it can be encoded and its encoding, with one byte for the
-- newline, is within the limit.
pub encodes_within_iff :
    {A : Type 0} (encode : Encode A) (v : A) (limit : ℕ)
    → (encodes_within encode v limit ≡ true)
      ↔ ((text : Bytes) × (encode v ≡ ok text) × (length text + 1 ≤ limit))
unfolding encodes_within
encodes_within_iff encode v limit = (sound, complete)
  where
    count :
        (text : Bytes)
        → (write_all
            (record { n = 0; limit = limit; exceeded = false })
            ((text ++ b'\n' ∷ []) ∷ [])).exceeded
          ≡ ltb limit (length text + 1)
    count text =
        write_all_exceeded limit ((text ++ b'\n' ∷ []) ∷ [])
        ∙ ap (ltb limit) (omega (arith, length-append text (b'\n' ∷ [])))

    sound :
        encodes_within encode v limit ≡ true
        → (text : Bytes) × (encode v ≡ ok text) × (length text + 1 ≤ limit)
    sound h = elim (Result-cases (encode v)) [
      | inl (e, bad) ↦ absurd (ground (arith, bad))
      | inr (text, good) ↦ (text, good, ground (arith, good, count text))
    ]

    complete :
        (text : Bytes) × (encode v ≡ ok text) × (length text + 1 ≤ limit)
        → encodes_within encode v limit ≡ true
    complete (text, good, fits) = ground (arith, good, count text)

-- A value whose encoding is exactly as long as the limit is found not to fit.
encodes_within_at_limit :
    {A : Type 0} (encode : Encode A) (v : A) (text : Bytes)
    → encode v ≡ ok text
    → encodes_within encode v (length text) ≡ false
encodes_within_at_limit encode v text good =
    elim (Bool-cases (encodes_within encode v (length text))) [
      | inl fits ↦
          let (text', again, bound) = (encodes_within_iff encode v (length text)).0 fits in
          let same : text ≡ text' = ok-injective (sym good ∙ again) in
          absurd (omega (arith, ap length same))
      | inr too_long ↦ too_long
    ]
