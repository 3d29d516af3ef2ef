-- ===== src/Protocol/Frame/Canonical.antt =====
-- Every frame that `parse_frame` accepts is the frame that `build_frame` makes of its fields.
use mathlib.Core.Path.{ap₂}
use slimhub_v.Prelude.{
  ℕ, suc, ◌+◌, ◌-◌, ◌≤◌, ◌<◌, ◌≡◌, refl, sym, ap, ◌∙◌, true, [], ◌∷◌, ◌++◌, arith, ◌==◌, ==_iff,
  Bool-cases, inl, inr, length, length-take, length-drop, take, drop, take-append-drop, drop-drop,
  slice, replicate, All, All-take, All-drop, IsByte, Text, Bytes, text_eq_sound, Result, ok, err,
  ◌>>=◌, ok-injective,
}
use slimhub_v.Protocol.Mac.{format_mac}
use slimhub_v.Protocol.Mac.RoundTrip.{mac_to_bytes-format_mac}
use slimhub_v.Protocol.Frame.{
  Packet, ParsedFrame, is_ascii, ljust, strip_cons, rstrip, from_le, to_le, end_flag, build_frame,
  parse_packet, parse_frame,
}
use slimhub_v.Protocol.Frame.Layout.{layout}
use slimhub_v.Protocol.Frame.RoundTrip.{require-eq-ok, not_over, build_frame-layout}

-- What a successful parse says of the bytes.
pub record IsRead (bytes : Bytes) (f : ParsedFrame) : Type 0 where
  pub long : 18 ≤ length bytes
  pub fits : length bytes ≡ 18 + f.packet_length
  pub field : from_le (slice 14 16 bytes) ≡ f.packet_length
  pub tail : drop (length bytes - 2) bytes ≡ end_flag
  pub ascii : is_ascii f.packet_type ≡ true
  pub mac : f.mac ≡ format_mac (take 6 bytes)
  pub mac_bytes : f.mac_bytes ≡ take 6 bytes
  pub packet_type : f.packet_type ≡ rstrip (slice 6 14 bytes)
  pub payload : f.payload ≡ slice 16 (16 + f.packet_length) bytes
  pub parsed : parse_packet f.packet_type f.payload ≡ ok f.parsed

ok_parsed :
    (r : Result Packet) (g : Packet → ParsedFrame) (f : ParsedFrame)
    → (r >>= λ p. ok (g p)) ≡ ok f
    → (p : Packet) × (r ≡ ok p) × (f ≡ g p)
ok_parsed (ok p) g f h = (p, refl, sym (ok-injective _ _ h))
ok_parsed (err e) g f h = cc

total_of : (n k : ℕ) → (k == 16 + n + 2) ≡ true → k ≡ 18 + n
total_of n k h = ground arith

pub parse_frame-IsRead :
    (bytes : Bytes) (f : ParsedFrame) → parse_frame bytes ≡ ok f → IsRead bytes f
unfolding parse_frame
parse_frame-IsRead bytes f h =
    let (long, h1) = require-eq-ok _ _ _ h in
    let (fits, h2) = require-eq-ok _ _ _ h1 in
    let (tail, h3) = require-eq-ok _ _ _ h2 in
    let (ascii, h4) = require-eq-ok _ _ _ h3 in
    let (p, hp, e) = ok_parsed _ _ f h4 in
    rw e (record {
      long = not_over (length bytes) 18 long;
      fits = total_of _ (length bytes) fits;
      field = refl;
      tail = text_eq_sound _ end_flag tail;
      ascii = ascii;
      mac = refl;
      mac_bytes = refl;
      packet_type = refl;
      payload = refl;
      parsed = hp;
    })

strip_lem :
    (b : ℕ) (r s : Bytes)
    → r ++ replicate (length s - length r) 0 ≡ s
    → length r ≤ length s
    → (strip_cons b r ++ replicate (suc (length s) - length (strip_cons b r)) 0 ≡ b ∷ s)
      × (length (strip_cons b r) ≤ suc (length s))
strip_lem b [] s e l = elim (Bool-cases (b == 0)) [
  | inl z ↦
      let k : suc (length s) - 0 ≡ suc (length s - 0) = omega arith in
      let b0 : b ≡ 0 = (==_iff b 0).0 z in rw (z, k) (cc (b0, e), omega arith)
  | inr nz ↦
      let k : suc (length s) - 1 ≡ length s - 0 = omega arith in
      rw (nz, k) (ap (◌∷◌ b) e, omega arith)
]
strip_lem b (c ∷ r) s e l =
    let k : suc (length s) - suc (suc (length r)) ≡ length s - suc (length r) = omega arith in
    rw k (ap (◌∷◌ b) e, omega arith)

-- Stripped zeros are put back by `ljust`.
ljust-rstrip :
    (s : Bytes)
    → (rstrip s ++ replicate (length s - length (rstrip s)) 0 ≡ s) × (length (rstrip s) ≤ length s)
unfolding rstrip
ljust-rstrip [] = (refl, omega arith)
ljust-rstrip (b ∷ s) = let (e, l) = ljust-rstrip s in strip_lem b (rstrip s) s e l

to_le-from_le : (s : Bytes) → length s ≡ 2 → All IsByte s → to_le (from_le s) ≡ s
unfolding from_le
to_le-from_le [] l h = absurd (omega arith)
to_le-from_le (a ∷ []) l h = absurd (omega arith)
to_le-from_le (a ∷ b ∷ []) l h = ground arith
to_le-from_le (a ∷ b ∷ c ∷ s) l h = absurd (omega arith)

from_le-lt : (s : Bytes) → length s ≡ 2 → All IsByte s → from_le s < 65536
unfolding from_le
from_le-lt [] l h = absurd (omega arith)
from_le-lt (a ∷ []) l h = absurd (omega arith)
from_le-lt (a ∷ b ∷ []) l h = omega arith
from_le-lt (a ∷ b ∷ c ∷ s) l h = absurd (omega arith)

-- A suffix is its first elements and a later suffix.
cut : (a k c : ℕ) (s : Bytes) → a + k ≡ c → drop a s ≡ take k (drop a s) ++ drop c s
cut a k c s e =
    sym (take-append-drop k (drop a s)) ∙ ap (◌++◌ (take k (drop a s))) (drop-drop k a c s e)

slice-IsByte : (a k : ℕ) (s : Bytes) → All IsByte s → All IsByte (take k (drop a s))
slice-IsByte a k s h = All-take IsByte k (drop a s) (All-drop IsByte a s h)

module _ {bytes : Bytes} {f : ParsedFrame} (r : IsRead bytes f) where
  length_raw_type : length (slice 6 14 bytes) ≡ 8
  length_raw_type = length-take 8 (drop 6 bytes) (omega (arith, length-drop {0} 6 bytes, r.fits))

  length_field : length (slice 14 16 bytes) ≡ 2
  length_field = length-take 2 (drop 14 bytes) (omega (arith, length-drop {0} 14 bytes, r.fits))

  raw_type-ljust : ljust 8 f.packet_type ≡ slice 6 14 bytes
  raw_type-ljust =
      let (e, _) = ljust-rstrip (slice 6 14 bytes) in rw (r.packet_type) (rw length_raw_type at e)

  type_fits : length f.packet_type ≤ 8
  type_fits =
      let (_, l) = ljust-rstrip (slice 6 14 bytes) in rw (r.packet_type) (rw length_raw_type at l)

  length_payload : length f.payload ≡ f.packet_length
  length_payload =
      let n : 16 + f.packet_length - 16 ≡ f.packet_length = omega arith in
      rw (r.payload, n)
        (length-take f.packet_length (drop 16 bytes)
          (omega (arith, length-drop {0} 16 bytes, r.fits)))

  -- The bytes are the six of the address, eight of the type, two of the length, the payload, and the
  -- end flag.
  bytes-layout : All IsByte bytes → bytes ≡ layout (take 6 bytes) (ljust 8 f.packet_type) f.payload
  bytes-layout h =
      let n : ℕ = f.packet_length in
      let field : slice 14 16 bytes ≡ to_le (length f.payload) =
        sym (to_le-from_le (slice 14 16 bytes) length_field (slice-IsByte 14 2 bytes h))
        ∙ ap to_le (r.field ∙ sym length_payload) in
      let same : 16 + n - 16 ≡ n = omega arith in
      let body : take n (drop 16 bytes) ≡ f.payload = sym (rw same at r.payload) in
      let start : length bytes - 2 ≡ 16 + n = omega (arith, r.fits) in
      sym (take-append-drop 6 bytes)
      ∙ ap (◌++◌ (take 6 bytes)) (
          cut 6 8 14 bytes refl
          ∙ ap₂ ◌++◌ (sym raw_type-ljust) (
              cut 14 2 16 bytes refl
              ∙ ap₂ ◌++◌ field (cut 16 n (16 + n) bytes refl ∙ ap₂ ◌++◌ body (rw start at r.tail))))

-- Every frame of bytes that `parse_frame` accepts is, byte for byte, the frame that `build_frame`
-- makes of its address, its packet type and its payload.
pub build_frame-parse_frame :
    (bytes : Bytes) (f : ParsedFrame)
    → All IsByte bytes
    → parse_frame bytes ≡ ok f
    → build_frame f.mac f.packet_type f.payload ≡ ok bytes
build_frame-parse_frame bytes f h e =
    let r = parse_frame-IsRead bytes f e in
    let six : length (take 6 bytes) ≡ 6 = length-take 6 bytes (omega (arith, r.long)) in
    let (_, m) = mac_to_bytes-format_mac (take 6 bytes) six (All-take IsByte 6 bytes h) in
    let short : length f.payload < 65536 =
      rw (length_payload r ∙ sym r.field)
        (from_le-lt (slice 14 16 bytes) (length_field r) (slice-IsByte 14 2 bytes h)) in
    ap (λ (mac : Text). build_frame mac f.packet_type f.payload) r.mac
    ∙ build_frame-layout (format_mac (take 6 bytes)) f.packet_type f.payload (take 6 bytes) m
        r.ascii (type_fits r) short
    ∙ ap ok (sym (bytes-layout r h))
