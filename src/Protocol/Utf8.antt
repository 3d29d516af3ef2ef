-- ===== src/Protocol/Utf8.antt =====
-- UTF-8 as slimhub/protocol/nus.py uses it: `str.encode("utf-8")` for a command, and
-- `bytes.decode("utf-8", errors="replace")` for the text of an alert.
pub mod Laws
use slimhub_v.Prelude.{
  ℕ, ◌+◌, ◌-◌, ◌*◌, ◌/◌, ◌%◌, ◌&&◌, ◌||◌, List, [], ◌∷◌, ◌++◌, ltb, leb, ◌==◌, if◌then◌else◌, Text,
  Bytes,
}

abbrev pub replacement : ℕ
replacement = 0xfffd

-- The bytes of one code point that is no surrogate.
unfoldable pub encode_char : ℕ → Bytes
encode_char c =
    if ltb c 0x80
    then c ∷ []
    else if ltb c 0x800
    then (0xc0 + c / 64) ∷ (0x80 + c % 64) ∷ []
    else if ltb c 0x10000
    then (0xe0 + c / 4096) ∷ (0x80 + c / 64 % 64) ∷ (0x80 + c % 64) ∷ []
    else (0xf0 + c / 262144) ∷ (0x80 + c / 4096 % 64) ∷ (0x80 + c / 64 % 64) ∷ (0x80 + c % 64) ∷ []

unfoldable pub encode : Text → Bytes
encode [] = []
encode (c ∷ s) = encode_char c ++ encode s

-- Between two characters, or inside one: how many bytes are still to come, the range that the next
-- one must lie in, and the value so far.
pub data Pending : Type 0 where
  idle : Pending
  wants : ℕ → ℕ → ℕ → ℕ → Pending

-- What a byte does: it gives a character, opens a longer one, or is none that may stand there.
pub data Lead : Type 0 where
  single : ℕ → Lead
  opens : ℕ → ℕ → ℕ → ℕ → Lead
  bad : Lead

unfoldable pub lead : ℕ → Lead
lead b =
    if ltb b 0x80
    then single b
    else if leb 0xc2 b && leb b 0xdf
    then opens 1 0x80 0xbf (b - 0xc0)
    else if b == 0xe0
    then opens 2 0xa0 0xbf 0
    else if b == 0xed
    then opens 2 0x80 0x9f 13
    else if leb 0xe1 b && leb b 0xef
    then opens 2 0x80 0xbf (b - 0xe0)
    else if b == 0xf0
    then opens 3 0x90 0xbf 0
    else if leb 0xf1 b && leb b 0xf3
    then opens 3 0x80 0xbf (b - 0xf0)
    else if b == 0xf4
    then opens 3 0x80 0x8f 4
    else bad

-- The state after a byte that starts anew, with the characters that this byte gives.
abbrev pub restart : Lead → Text × Pending
restart (single c) = (c ∷ [], idle)
restart (opens n lo hi acc) = ([], wants n lo hi acc)
restart bad = (replacement ∷ [], idle)

-- A broken character gives one replacement, and the byte that broke it is read anew.
unfoldable pub feed : Pending → ℕ → Text × Pending
unfolding lead
feed idle b = restart (lead b)
feed (wants n lo hi acc) b =
    if leb lo b && leb b hi
    then (let acc' = acc * 64 + (b - 0x80) in
        if n == 1 then (acc' ∷ [], idle) else ([], wants (n - 1) 0x80 0xbf acc'))
    else (let (out, next) = restart (lead b) in (replacement ∷ out, next))

unfoldable pub decode_from : Pending → Bytes → Text
unfolding feed
decode_from idle [] = []
decode_from (wants n lo hi acc) [] = replacement ∷ []
decode_from p (b ∷ bs) = let (out, next) = feed p b in out ++ decode_from next bs

unfoldable pub decode : Bytes → Text
unfolding decode_from
decode bs = decode_from idle bs
