-- ===== src/Common/Hex.antt =====
-- src/primihub/util/util.cc: `buf_to_hex_string`.
use primihub.Prelude.{
  ℕ, ◌+◌, ◌-◌, ◌*◌, ◌/◌, ◌%◌, ◌<◌, ◌≡◌, refl, ◌&&◌, Option, none, some, [], ◌∷◌, arith, ltb, leb,
  if◌then◌else◌, Bytes, length, All,
}

-- A digit as `std::hex` prints it.
abbrev hex_digit : ℕ → ℕ
hex_digit d = if ltb d 10 then d + 48 else d + 87

-- Two digits for each byte, filled with `0`.
unfoldable pub buf_to_hex_string : Bytes → Bytes
buf_to_hex_string [] = []
buf_to_hex_string (b ∷ s) = hex_digit (b / 16) ∷ hex_digit (b % 16) ∷ buf_to_hex_string s

-- The value of a digit, `none` for another character.
unfoldable hex_value : ℕ → Option ℕ
hex_value c =
    if leb 48 c && leb c 57
    then some (c - 48)
    else if leb 97 c && leb c 102
    then some (c - 87)
    else none

-- The bytes that a text of hexadecimal digits in pairs stands for.
unfoldable read_hex : Bytes → Option Bytes
unfolding hex_value
read_hex [] = some []
read_hex (c ∷ []) = none
read_hex (c ∷ d ∷ s) = elim (hex_value c) [
  | none ↦ none
  | some x ↦ elim (hex_value d) [
    | none ↦ none
    | some y ↦ elim (read_hex s) [ none ↦ none | some bs ↦ some ((x * 16 + y) ∷ bs) ]
  ]
]

hex_value-hex_digit : (d : ℕ) → d < 16 → hex_value (hex_digit d) ≡ some d
unfolding hex_value
hex_value-hex_digit d h = ground arith

-- The hexadecimal text of bytes determines them: read in pairs of digits, it gives the bytes back, and
-- it has twice as many characters as there are bytes.
read_hex-buf_to_hex :
    (s : Bytes)
    → All (λ b. b < 256) s
    → (read_hex (buf_to_hex_string s) ≡ some s) × (length (buf_to_hex_string s) ≡ 2 * length s)
unfolding read_hex buf_to_hex_string
read_hex-buf_to_hex [] h = (refl, refl)
read_hex-buf_to_hex (b ∷ s) h =
    let ih = read_hex-buf_to_hex s h.1 in
    let high = hex_value-hex_digit (b / 16) (omega arith) in
    let low = hex_value-hex_digit (b % 16) (omega arith) in
    let whole : b / 16 * 16 + b % 16 ≡ b = omega arith in
    (ground (arith, high, low, ih.0, whole), omega (arith, ih.1))
