-- ===== src/Protocol/Mac.antt =====
-- MAC addresses of slimhub/protocol/nus.py: `normalize_mac`, `mac_to_bytes`, and the text that
-- `parse_frame` makes of the six bytes of a frame.
pub mod Laws
pub mod RoundTrip
use slimhub_v.Prelude.{
  ℕ, zero, suc, ◌+◌, ◌-◌, ◌*◌, ◌/◌, ◌%◌, Bool, ◌&&◌, ◌||◌, List, [], ◌∷◌, map, leb, ◌==◌,
  if◌then◌else◌, length, filter, Text, Bytes, join, Result, ok, err, ◌>>=◌, invalid_mac, bad_int,
}

abbrev pub mac_len : ℕ
mac_len = 6

abbrev pub colon : Text
colon = b':' ∷ []

-- `ch in string.hexdigits`, for one character
abbrev pub is_hex : ℕ → Bool
is_hex c = leb b'0' c && leb c b'9' || leb b'a' c && leb c b'f' || leb b'A' c && leb c b'F'

-- `ch.upper()` on ASCII, which is all that a hex digit can be.
abbrev pub upper : ℕ → ℕ
upper c = if leb b'a' c && leb c b'z' then c - 32 else c

-- `compact[i : i + 2] for i in range(0, len(compact), 2)`
unfoldable pub pairs : Text → List Text
pairs [] = []
pairs (a ∷ []) = (a ∷ []) ∷ []
pairs (a ∷ b ∷ rest) = (a ∷ b ∷ []) ∷ pairs rest

unfoldable pub normalize_mac : Text → Result Text
unfolding pairs join
normalize_mac mac =
    let compact = filter is_hex mac in
    if length compact == mac_len * 2
    then ok (join colon (map (map upper) (pairs compact)))
    else err (invalid_mac mac)

-- `text.split(sep)` for a separator of one character
abbrev pub onto_head : ℕ → List Text → List Text
onto_head c [] = (c ∷ []) ∷ []
onto_head c (x ∷ xs) = (c ∷ x) ∷ xs

unfoldable pub split : ℕ → Text → List Text
split sep [] = [] ∷ []
split sep (c ∷ rest) =
    let parts = split sep rest in if c == sep then [] ∷ parts else onto_head c parts

abbrev pub digit_value : ℕ → ℕ
digit_value c = if leb c b'9' then c - b'0' else if leb c b'F' then c - 55 else c - 87

-- The digits of `int(part, 16)`. A part of a normalized address holds hex digits only, so the
-- prefixes, signs, spaces and underscores that `int` takes besides do not arise.
unfoldable pub int16_digits : ℕ → Text → Text → Result ℕ
int16_digits acc part [] = ok acc
int16_digits acc part (c ∷ rest) =
    let more = int16_digits (acc * 16 + digit_value c) part rest in
    if is_hex c then more else err (bad_int part)

unfoldable pub int16 : Text → Result ℕ
unfolding int16_digits
int16 [] = err (bad_int [])
int16 (c ∷ rest) = int16_digits 0 (c ∷ rest) (c ∷ rest)

-- `bytes(int(part, 16) for part in parts)`
unfoldable pub parts_to_bytes : List Text → Result Bytes
parts_to_bytes [] = ok []
parts_to_bytes (part ∷ rest) = do b ← int16 part; bs ← parts_to_bytes rest; ok (b ∷ bs)

unfoldable pub mac_to_bytes : Text → Result Bytes
unfolding split parts_to_bytes
mac_to_bytes mac = do normalized ← normalize_mac mac; parts_to_bytes (split b':' normalized)

-- `f"{byte:02X}"`
abbrev pub hex_digit : ℕ → ℕ
hex_digit n = if leb n 9 then n + b'0' else n + 55

abbrev pub hex_byte : ℕ → Text
hex_byte b = hex_digit (b / 16) ∷ hex_digit (b % 16) ∷ []

-- `":".join(f"{byte:02X}" for byte in mac_bytes)`
unfoldable pub format_mac : Bytes → Text
unfolding join
format_mac bs = join colon (map hex_byte bs)
