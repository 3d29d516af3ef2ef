-- ===== src/Protocol/Dump.antt =====
-- `hex_dump` of slimhub/protocol/nus.py, which the notify handlers log of chunks and frames: the digits of
-- each byte, lower case, with a space between two bytes.
use slimhub_v.Prelude.{
  ℕ, ◌+◌, ◌*◌, ◌/◌, ◌%◌, ◌≡◌, refl, ap, [], ◌∷◌, map, arith, leb, if◌then◌else◌, Text, Bytes, join,
}
use slimhub_v.Protocol.Mac.{digit_value}

abbrev lower_digit : ℕ → ℕ
lower_digit n = if leb n 9 then n + b'0' else n + 87

abbrev lower_byte : ℕ → Text
lower_byte b = lower_digit (b / 16) ∷ lower_digit (b % 16) ∷ []

-- `data.hex(" ")`
unfoldable pub hex_dump : Bytes → Text
unfolding join
hex_dump data_bytes = join (32 ∷ []) (map lower_byte data_bytes)

-- The bytes that a dump shows: two digits to a byte, and one character between two bytes.
unfoldable pub undump : Text → Bytes
undump [] = []
undump (a ∷ []) = []
undump (a ∷ b ∷ []) = (digit_value a * 16 + digit_value b) ∷ []
undump (a ∷ b ∷ space ∷ rest) = (digit_value a * 16 + digit_value b) ∷ undump rest

digit_value-lower_digit : (n : ℕ) → digit_value (lower_digit n) ≡ n
digit_value-lower_digit n = ground arith

byte_back :
    (b : ℕ) → digit_value (lower_digit (b / 16)) * 16 + digit_value (lower_digit (b % 16)) ≡ b
byte_back b =
    let hi = digit_value-lower_digit (b / 16) in
    let lo = digit_value-lower_digit (b % 16) in rw (hi, lo) (omega arith)

-- A dump shows every byte, in order: they are read back from its digits. So two chunks that are logged
-- alike are alike.
pub undump-hex_dump : (bytes : Bytes) → undump (hex_dump bytes) ≡ bytes
unfolding undump hex_dump
undump-hex_dump [] = refl
undump-hex_dump (b ∷ []) = ap (λ (v : ℕ). v ∷ []) (byte_back b)
undump-hex_dump (b ∷ c ∷ bytes) = λ i. byte_back b i ∷ undump-hex_dump (c ∷ bytes) i
