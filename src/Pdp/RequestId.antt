-- ===== src/Pdp/RequestId.antt =====
-- `newRequestID`: two hexadecimal digits for each byte, so that calls with different random bytes
-- have different ids.
use mcp_opa.Base.{ℕ, ◌*◌, ◌/◌, ◌%◌, ◌<◌, ◌≡◌, refl, [], ◌∷◌, some, Bytes, length, arith, All}
use mcp_opa.Pdp.Client.{hex_digit, hex_encode, new_request_id}

hex_digit_injective : (a b : ℕ) → a < 16 → b < 16 → hex_digit a ≡ hex_digit b → a ≡ b
unfolding hex_digit
hex_digit_injective a b h k e = ground arith

abbrev pub AreBytes : Bytes → Type 0
AreBytes s = All (λ c. c < 256) s

hex_encode_injective : (a b : Bytes) → AreBytes a → AreBytes b → hex_encode a ≡ hex_encode b → a ≡ b
unfolding hex_encode
hex_encode_injective [] [] h k e = refl
hex_encode_injective [] (y ∷ b) h k e = cc
hex_encode_injective (x ∷ a) [] h k e = cc
hex_encode_injective (x ∷ a) (y ∷ b) (h, hs) (k, ks) e = ground (
  arith,
  hex_digit_injective (x / 16) (y / 16),
  hex_digit_injective (x % 16) (y % 16),
  hex_encode_injective a b hs ks,
)

length-hex_encode : (a : Bytes) → length (hex_encode a) ≡ 2 * length a
unfolding hex_encode
length-hex_encode [] = refl
length-hex_encode (x ∷ a) = omega (arith, length-hex_encode a)

-- For 16 random bytes the id is 32 digits long, and two calls whose bytes differ have different
-- ids.
new_request_id_injective :
    (a b : Bytes)
    → AreBytes a
    → AreBytes b
    → length a ≡ 16
    → length b ≡ 16
    → (length (new_request_id (some a)) ≡ 32)
      × (new_request_id (some a) ≡ new_request_id (some b) → a ≡ b)
unfolding new_request_id
new_request_id_injective a b h k n m =
    (omega (arith, length-hex_encode a), hex_encode_injective a b h k)
