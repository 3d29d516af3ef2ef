-- ===== src/Protocol/Mac/RoundTrip.antt =====
-- The text of an address and its six bytes: `mac_to_bytes` and `format_mac` undo each other.
use mathlib.Core.Path.{ap₂}
use slimhub_v.Prelude.{
  ℕ, zero, suc, ◌+◌, ◌*◌, ◌/◌, ◌%◌, ◌≤◌, ◌<◌, ◌≡◌, refl, sym, ap, ◌∙◌, true, false, List, [], ◌∷◌,
  ◌++◌, map, arith, ◌==◌, length, All, IsByte, Text, Bytes, join, ok, >>=-eq-ok, ok-injective,
}
use slimhub_v.Protocol.Mac.{
  is_hex, upper, pairs, colon, normalize_mac, split, digit_value, int16, parts_to_bytes,
  mac_to_bytes, hex_byte, hex_digit, format_mac,
}
use slimhub_v.Protocol.Mac.Laws.{
  mac_digits, upper-is_hex, upper_idem, mac_digits-join, normalize_mac-eq-ok,
  normalize_mac_of_length,
}

abbrev IsClean : Text → Type 0
IsClean = All (λ c. (c == b':') ≡ false)

split_last : (w : Text) → IsClean w → split b':' w ≡ w ∷ []
unfolding split
split_last [] h = refl
split_last (c ∷ w) (hc, h) = ground (arith, split_last w h)

split_first : (w rest : Text) → IsClean w → split b':' (w ++ b':' ∷ rest) ≡ w ∷ split b':' rest
unfolding split
split_first [] rest h = ground arith
split_first (c ∷ w) rest (hc, h) = ground (arith, split_first w rest h)

split-join :
    (w : Text) (parts : List Text)
    → IsClean w
    → All IsClean parts
    → split b':' (join colon (w ∷ parts)) ≡ w ∷ parts
unfolding join
split-join w [] h hs = split_last w h
split-join w (x ∷ parts) h (hx, hs) =
    split_first w (join colon (x ∷ parts)) h ∙ ap (◌∷◌ w) (split-join x parts hx hs)

-- The bytes that a text of hex digits spells, two digits to a byte.
abbrev bytes_of : Text → Bytes
bytes_of [] = []
bytes_of (a ∷ []) = digit_value a ∷ []
bytes_of (a ∷ b ∷ rest) = (digit_value a * 16 + digit_value b) ∷ bytes_of rest

-- An upper case hex digit.
abbrev IsDigit : ℕ → Type 0
IsDigit c = (is_hex c ≡ true) × (upper c ≡ c)

parts_to_bytes-pairs : (s : Text) → All IsDigit s → parts_to_bytes (pairs s) ≡ ok (bytes_of s)
unfolding parts_to_bytes pairs int16
parts_to_bytes-pairs [] h = refl
parts_to_bytes-pairs (a ∷ []) (ha, _) = ground arith
parts_to_bytes-pairs (a ∷ b ∷ rest) (ha, (hb, h)) = ground (arith, parts_to_bytes-pairs rest h)

IsDigit-IsClean : (c : ℕ) → IsDigit c → (c == b':') ≡ false
IsDigit-IsClean c h = ground arith

pairs-IsClean : (s : Text) → All IsDigit s → All IsClean (pairs s)
unfolding pairs
pairs-IsClean [] h = tt
pairs-IsClean (a ∷ []) (ha, _) = ((IsDigit-IsClean a ha, tt), tt)
pairs-IsClean (a ∷ b ∷ rest) (ha, (hb, h)) =
    ((IsDigit-IsClean a ha, (IsDigit-IsClean b hb, tt)), pairs-IsClean rest h)

hex_byte_of_digits :
    (a b : ℕ) → IsDigit a → IsDigit b → hex_byte (digit_value a * 16 + digit_value b) ≡ a ∷ b ∷ []
hex_byte_of_digits a b ha hb = ground arith

mac_digits-IsDigit : (s : Text) → All IsDigit (mac_digits s)
mac_digits-IsDigit [] = tt
mac_digits-IsDigit (c ∷ s) = ground (arith, upper-is_hex c, upper_idem c, mac_digits-IsDigit s)

split-join-pairs :
    (s : Text) → All IsDigit s → 2 ≤ length s → split b':' (join colon (pairs s)) ≡ pairs s
unfolding pairs
split-join-pairs [] h l = absurd (omega arith)
split-join-pairs (a ∷ []) h l = absurd (omega arith)
split-join-pairs (a ∷ b ∷ rest) (ha, (hb, h)) l =
    split-join (a ∷ b ∷ []) (pairs rest) (IsDigit-IsClean a ha, (IsDigit-IsClean b hb, tt))
      (pairs-IsClean rest h)

-- An accepted address as bytes: those that its digits spell.
mac_to_bytes-bytes_of :
    (mac n : Text) → normalize_mac mac ≡ ok n → mac_to_bytes mac ≡ ok (bytes_of (mac_digits mac))
unfolding mac_to_bytes
mac_to_bytes-bytes_of mac n h =
    let (l, e) = normalize_mac-eq-ok mac n h in
    rw (h, e, split-join-pairs (mac_digits mac) (mac_digits-IsDigit mac) (omega arith))
      (parts_to_bytes-pairs (mac_digits mac) (mac_digits-IsDigit mac))

bytes_of_shape :
    (k : ℕ) (s : Text)
    → All IsDigit s
    → length s ≡ 2 * k
    → (map hex_byte (bytes_of s) ≡ pairs s) × (length (bytes_of s) ≡ k) × All IsByte (bytes_of s)
unfolding pairs
bytes_of_shape zero [] h l = (refl, refl, tt)
bytes_of_shape zero (a ∷ s) h l = absurd (omega arith)
bytes_of_shape (suc k) [] h l = absurd (omega arith)
bytes_of_shape (suc k) (a ∷ []) h l = absurd (omega arith)
bytes_of_shape (suc k) (a ∷ b ∷ s) (ha, (hb, h)) l =
    let (p, q, r) = bytes_of_shape k s h (omega arith) in
    (ap₂ ◌∷◌ (hex_byte_of_digits a b ha hb) p, ap suc q, (ground arith, r))

mac_to_bytes-eq-ok :
    (mac : Text) (bs : Bytes) → mac_to_bytes mac ≡ ok bs → (n : Text) × (normalize_mac mac ≡ ok n)
unfolding mac_to_bytes
mac_to_bytes-eq-ok mac bs h = let (n, e, _) = >>=-eq-ok (normalize_mac mac) _ h in (n, e)

-- Whenever an address is accepted by `mac_to_bytes`, the result has six elements, each a byte, and
-- their text is the normal form of the address.
pub format_mac-mac_to_bytes :
    (mac : Text) (bs : Bytes)
    → mac_to_bytes mac ≡ ok bs
    → (length bs ≡ 6) × All IsByte bs × (normalize_mac mac ≡ ok (format_mac bs))
unfolding format_mac
format_mac-mac_to_bytes mac bs h =
    let (n, hn) = mac_to_bytes-eq-ok mac bs h in
    let (l, e) = normalize_mac-eq-ok mac n hn in
    let same : bs ≡ bytes_of (mac_digits mac) =
      ground (arith, sym h ∙ mac_to_bytes-bytes_of mac n hn) in
    let (p, q, r) = bytes_of_shape 6 (mac_digits mac) (mac_digits-IsDigit mac) l in
    rw (same, hn, e, p) (q, r, refl)

All-is_hex : (s : Text) → All IsDigit s → All (λ c. is_hex c ≡ true) s
All-is_hex [] h = tt
All-is_hex (c ∷ s) (hc, h) = (hc.0, All-is_hex s h)

map-upper : (s : Text) → All IsDigit s → map upper s ≡ s
map-upper [] h = refl
map-upper (c ∷ s) (hc, h) = ap₂ ◌∷◌ hc.1 (map-upper s h)

-- The digits of the text of some bytes.
digits_of : Bytes → Text
digits_of [] = []
digits_of (b ∷ bs) = hex_digit (b / 16) ∷ hex_digit (b % 16) ∷ digits_of bs

hex_digit-IsDigit : (n : ℕ) → n < 16 → IsDigit (hex_digit n) × (digit_value (hex_digit n) ≡ n)
hex_digit-IsDigit n h = ground arith

digits_of_shape :
    (bs : Bytes)
    → All IsByte bs
    → All IsDigit (digits_of bs)
      × (pairs (digits_of bs) ≡ map hex_byte bs)
      × (bytes_of (digits_of bs) ≡ bs)
      × (length (digits_of bs) ≡ 2 * length bs)
unfolding digits_of pairs
digits_of_shape [] h = (tt, refl, refl, refl)
digits_of_shape (b ∷ bs) (hb, h) =
    let (p, q, r, s) = digits_of_shape bs h in
    let (hi, vhi) = hex_digit-IsDigit (b / 16) (omega arith) in
    let (lo, vlo) = hex_digit-IsDigit (b % 16) (omega arith) in
    ((hi, (lo, p)), ap (◌∷◌ (hex_byte b)) q, ap₂ ◌∷◌ (omega arith) r, omega arith)

-- Six bytes, written as text, are a normalized address, and `mac_to_bytes` reads them back.
pub mac_to_bytes-format_mac :
    (bs : Bytes)
    → length bs ≡ 6
    → All IsByte bs
    → (normalize_mac (format_mac bs) ≡ ok (format_mac bs)) × (mac_to_bytes (format_mac bs) ≡ ok bs)
unfolding format_mac
mac_to_bytes-format_mac bs l h =
    let (p, q, r, s) = digits_of_shape bs h in
    let text : join colon (map hex_byte bs) ≡ join colon (pairs (digits_of bs)) =
      ap (join colon) (sym q) in
    let d : mac_digits (join colon (pairs (digits_of bs))) ≡ digits_of bs =
      mac_digits-join (digits_of bs) (All-is_hex (digits_of bs) p) (map-upper (digits_of bs) p) in
    let norm : normalize_mac (join colon (pairs (digits_of bs)))
        ≡ ok (join colon (pairs (digits_of bs))) =
      normalize_mac_of_length (join colon (pairs (digits_of bs))) (ap length d ∙ omega arith)
      ∙ ap (λ (t : Text). ok (join colon (pairs t))) d in
    rw text (norm, mac_to_bytes-bytes_of _ _ norm ∙ ap (λ (t : Text). ok (bytes_of t)) d ∙ ap ok r)

-- An address that `normalize_mac` accepts has bytes, and they spell its normal form.
pub mac_to_bytes_of_normal :
    (mac n : Text)
    → normalize_mac mac ≡ ok n
    → (bs : Bytes) × (mac_to_bytes mac ≡ ok bs) × (length bs ≡ 6) × (format_mac bs ≡ n)
mac_to_bytes_of_normal mac n h =
    let bs : Bytes = bytes_of (mac_digits mac) in
    let e : mac_to_bytes mac ≡ ok bs = mac_to_bytes-bytes_of mac n h in
    let (six, _, norm) = format_mac-mac_to_bytes mac bs e in
    (bs, e, six, ok-injective _ _ (sym norm ∙ h))
