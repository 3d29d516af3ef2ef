-- ===== src/Protocol/Frame/Layout.antt =====
-- The layout of a frame, and what `parse_frame` reads from a frame that is laid out so.
use slimhub_v.Prelude.{
  ℕ, zero, suc, ◌+◌, ◌-◌, ◌≤◌, ◌<◌, ◌≡◌, refl, sym, ap, ◌∙◌, true, false, [], ◌∷◌, ◌++◌, arith, ltb,
  ◌==◌, length, length-append, take, drop, take-append, drop-append, drop-drop, length-replicate,
  slice, replicate, Text, Bytes, text_eq, Result, ok, ◌>>=◌, le→ltb, ==_iff,
}
use slimhub_v.Protocol.Mac.{format_mac}
use slimhub_v.Protocol.Frame.{
  end_flag, ParsedFrame, is_ascii, ljust, strip_cons, rstrip, from_le, to_le, parse_packet,
  parse_frame,
}

-- The bytes of a frame.
abbrev pub layout : Bytes → Bytes → Bytes → Bytes
layout mac raw_type payload = mac ++ (raw_type ++ (to_le (length payload) ++ (payload ++ end_flag)))

module _ (m t payload : Bytes) (hm : length m ≡ 6) (ht : length t ≡ 8) where
  pub length-layout : length (layout m t payload) ≡ 18 + length payload
  length-layout = omega (
    arith,
    length-append {0} m (t ++ (to_le (length payload) ++ (payload ++ end_flag))),
    length-append {0} t (to_le (length payload) ++ (payload ++ end_flag)),
    length-append {0} payload end_flag,
  )

  pub mac-layout : take 6 (layout m t payload) ≡ m
  mac-layout = take-append 6 m _ hm

  pub type-layout : slice 6 14 (layout m t payload) ≡ t
  type-layout =
      rw (drop-append 6 m (t ++ (to_le (length payload) ++ (payload ++ end_flag))) hm)
        (take-append 8 t _ ht)

  drop_type : drop 14 (layout m t payload) ≡ to_le (length payload) ++ (payload ++ end_flag)
  drop_type =
      sym (drop-drop 8 6 14 (layout m t payload) refl)
      ∙ ap (drop 8) (drop-append 6 m (t ++ (to_le (length payload) ++ (payload ++ end_flag))) hm)
      ∙ drop-append 8 t _ ht

  drop_header : drop 16 (layout m t payload) ≡ payload ++ end_flag
  drop_header = sym (drop-drop 2 14 16 (layout m t payload) refl) ∙ ap (drop 2) drop_type

  pub length_field-layout : slice 14 16 (layout m t payload) ≡ to_le (length payload)
  length_field-layout = ap (take 2) drop_type

  pub payload-layout :
      (n : ℕ) → length payload ≡ n → slice 16 (16 + n) (layout m t payload) ≡ payload
  payload-layout n h =
      let e : 16 + n - 16 ≡ n = omega arith in
      rw (drop_header, e) (take-append n payload end_flag h)

  pub tail-layout : (n : ℕ) → n ≡ 16 + length payload → drop n (layout m t payload) ≡ end_flag
  tail-layout n h =
      sym (drop-drop (length payload) 16 n (layout m t payload) (sym h))
      ∙ ap (drop (length payload)) drop_header
      ∙ drop-append (length payload) payload end_flag refl

pub from_le-to_le : (n : ℕ) → n < 65536 → from_le (to_le n) ≡ n
unfolding from_le
from_le-to_le n h = omega arith

strip_zeros : (k : ℕ) → rstrip (replicate k 0) ≡ []
unfolding rstrip
strip_zeros zero = refl
strip_zeros (suc k) = rw (strip_zeros k) refl

-- Zeros behind a text do not survive `rstrip`.
pub rstrip-ljust : (k : ℕ) (s : Bytes) → rstrip (s ++ replicate k 0) ≡ rstrip s
unfolding rstrip
rstrip-ljust k [] = strip_zeros k
rstrip-ljust k (b ∷ s) = ap (strip_cons b) (rstrip-ljust k s)

pub length-ljust : (n : ℕ) (s : Bytes) → length s ≤ n → length (ljust n s) ≡ n
length-ljust n s h = omega (
  arith,
  length-append {0} s (replicate (n - length s) 0),
  length-replicate {A = ℕ} (n - length s) 0,
)

-- The frame of some fields, if the payload can be parsed as its type says.
abbrev pub read_fields : Bytes → Text → ℕ → Bytes → Result ParsedFrame
read_fields m packet_type n payload = do
  parsed ← parse_packet packet_type payload
  ok (record {
    mac = format_mac m;
    mac_bytes = m;
    packet_type = packet_type;
    packet_length = n;
    payload = payload;
    parsed = parsed;
  })

-- A frame whose tests pass is parsed by its slices.
pub parse_frame_slices :
    (bytes : Bytes) (n : ℕ)
    → length bytes ≡ 18 + n
    → from_le (slice 14 16 bytes) ≡ n
    → drop (16 + n) bytes ≡ end_flag
    → is_ascii (rstrip (slice 6 14 bytes)) ≡ true
    → parse_frame bytes
      ≡ read_fields (take 6 bytes) (rstrip (slice 6 14 bytes)) n (slice 16 (16 + n) bytes)
unfolding parse_frame text_eq
parse_frame_slices bytes n len field tail ascii =
    let long : ltb (18 + n) 18 ≡ false = le→ltb (18 + n) 18 (omega arith) in
    let fits : (18 + n == 16 + n + 2) ≡ true = (==_iff (18 + n) (16 + n + 2)).1 (omega arith) in
    let start : 18 + n - 2 ≡ 16 + n = omega arith in
    rw (field, len, long, fits, start, tail, ascii) refl

pub parse_frame-layout :
    (m : Bytes) (packet_type : Text) (payload : Bytes)
    → length m ≡ 6
    → length packet_type ≤ 8
    → is_ascii packet_type ≡ true
    → rstrip packet_type ≡ packet_type
    → length payload < 65536
    → parse_frame (layout m (ljust 8 packet_type) payload)
      ≡ read_fields m packet_type (length payload) payload
parse_frame-layout m packet_type payload hm ht ascii stripped short =
    let t : Bytes = ljust 8 packet_type in
    let lt = length-ljust 8 packet_type ht in
    let kind : rstrip (slice 6 14 (layout m t payload)) ≡ packet_type =
      ap rstrip (type-layout m t payload hm lt)
      ∙ rstrip-ljust (8 - length packet_type) packet_type
      ∙ stripped in
    parse_frame_slices (layout m t payload) (length payload) (length-layout m t payload hm lt)
      (ap from_le (length_field-layout m t payload hm lt) ∙ from_le-to_le (length payload) short)
      (tail-layout m t payload hm lt (16 + length payload) refl) (ap is_ascii kind ∙ ascii)
    ∙ (λ i.
        read_fields (mac-layout m t payload hm lt i) (kind i) (length payload)
          (payload-layout m t payload hm lt (length payload) refl i))
