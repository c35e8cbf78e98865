-- ===== src/Text/Truncate.antt =====
-- `s[:limit] + "… (truncated)"`, where a text is over the limit.
use mcp_opa.Base.{
  ℕ, ◌+◌, ◌≤◌, ◌≡◌, refl, ◌∷◌, ◌++◌, arith, min, ltb, Bytes, codes, length, take, length-append,
  length-take, if◌then◌else◌,
}

-- The ellipsis is three bytes of UTF-8.
unfoldable pub mark : Bytes
mark = 0xE2 ∷ 0x80 ∷ 0xA6 ∷ codes " (truncated)"

unfoldable pub truncate : ℕ → Bytes → Bytes
unfolding mark
truncate limit s = if ltb limit (length s) then take limit s ++ mark else s

length-mark : length mark ≡ 15
unfolding mark
length-mark = refl

pub length-truncate : (limit : ℕ) (s : Bytes) → length (truncate limit s) ≤ limit + 15
unfolding truncate
length-truncate limit s =
    ground (arith, length-append (take limit s) mark, length-take limit s, length-mark)

-- No byte below the limit is lost.
pub length-truncate_ge : (limit : ℕ) (s : Bytes) → min limit (length s) ≤ length (truncate limit s)
unfolding truncate
length-truncate_ge limit s = ground (arith, length-append (take limit s) mark, length-take limit s)

-- A text within the limit is left as it is.
pub truncate_short : (limit : ℕ) (s : Bytes) → length s ≤ limit → truncate limit s ≡ s
unfolding truncate
truncate_short limit s h = ground arith
