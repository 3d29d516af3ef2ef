-- ===== src/Protocol/Frame/RoundTrip.antt =====
-- Frames that are built are parsed back, and frames that are parsed are built back.
use slimhub_v.Prelude.{
  ℕ, ◌+◌, ◌≤◌, ◌<◌, ◌≡◌, refl, sym, ap, ◌∙◌, ◌↔◌, Bool, true, false, not, arith, ltb, length, All,
  Text, Bytes, codes, text_eq, Result, ok, err, ◌>>◌, >>=-eq-ok, ok-injective, require,
  unknown_type, Error, le→ltb,
}
use slimhub_v.Protocol.Mac.{normalize_mac, mac_to_bytes, format_mac}
use slimhub_v.Protocol.Mac.RoundTrip.{format_mac-mac_to_bytes, mac_to_bytes_of_normal}
use slimhub_v.Protocol.Command.{validate_command}
use slimhub_v.Protocol.Command.Laws.{validate_command-IsNodeCommand}
use slimhub_v.Protocol.Rawdata.{RawDataPacket}
use slimhub_v.Protocol.Rawdata.Laws.{pack, IsPacket, length-pack, parse_rawdata-pack}
use slimhub_v.Protocol.Utf8.{encode}
use slimhub_v.Protocol.Utf8.Laws.{IsScalar, decode-encode, encode_ascii}
use slimhub_v.Protocol.Frame.{
  Packet, rawdata, alert, ParsedFrame, is_ascii, ljust, rstrip, packet_type_bytes, build_frame,
  build_command_frame, parse_packet, parse_frame,
}
use slimhub_v.Protocol.Frame.Layout.{layout, read_fields, length-layout, parse_frame-layout}

pub require-eq-ok {ℓ} :
    {A : Type ℓ} (b : Bool) (e : Error) (m : Result A) {a : A}
    → (require b e >> m) ≡ ok a
    → (b ≡ true) × (m ≡ ok a)
require-eq-ok true e m h = (refl, h)
require-eq-ok false e m h = cc

-- What a successful build says of its arguments, and of the frame.
pub record IsBuilt (mac packet_type : Text) (payload bytes : Bytes) : Type 0 where
  pub m : Bytes
  pub has_mac : mac_to_bytes mac ≡ ok m
  pub ascii : is_ascii packet_type ≡ true
  pub type_fits : length packet_type ≤ 8
  pub payload_fits : length payload < 65536
  pub laid_out : bytes ≡ layout m (ljust 8 packet_type) payload

pub not_over : (a b : ℕ) → not (ltb a b) ≡ true → b ≤ a
not_over a b h = ground arith

le_suc : (n k : ℕ) → k ≤ n → k < n + 1
le_suc n k h = omega arith

pub build_frame-IsBuilt :
    (mac packet_type : Text) (payload bytes : Bytes)
    → build_frame mac packet_type payload ≡ ok bytes
    → IsBuilt mac packet_type payload bytes
unfolding build_frame
build_frame-IsBuilt mac packet_type payload bytes h =
    let (fits, h1) = require-eq-ok _ _ _ h in
    let (m, hm, h2) = >>=-eq-ok (mac_to_bytes mac) _ h1 in
    let (t, ht, h3) = >>=-eq-ok (packet_type_bytes packet_type) _ h2 in
    let (ascii, h4) = require-eq-ok _ _ _ ht in
    let (short, h5) = require-eq-ok _ _ _ h4 in
    record {
      m = m;
      has_mac = hm;
      ascii = ascii;
      type_fits = not_over 8 (length packet_type) short;
      payload_fits = le_suc 0xffff (length payload) (not_over 0xffff (length payload) fits);
      laid_out =
          sym (ok-injective _ _ h3)
          ∙ ap (λ (raw : Bytes). layout m raw payload) (sym (ok-injective _ _ h5));
    }

pub build_frame-layout :
    (mac packet_type : Text) (payload m : Bytes)
    → mac_to_bytes mac ≡ ok m
    → is_ascii packet_type ≡ true
    → length packet_type ≤ 8
    → length payload < 65536
    → build_frame mac packet_type payload ≡ ok (layout m (ljust 8 packet_type) payload)
unfolding build_frame
build_frame-layout mac packet_type payload m hm ascii short fits =
    rw
      (le→ltb 0xffff (length payload) (omega arith), hm, ascii, le→ltb 8 (length packet_type) short)
      refl

-- A frame that was built from a type with no zero at its end is read with the bytes of its
-- address, its type and its payload, and is accepted if `parse_packet` accepts these.
pub parse_frame-build_frame :
    (mac packet_type : Text) (payload bytes : Bytes)
    → build_frame mac packet_type payload ≡ ok bytes
    → rstrip packet_type ≡ packet_type
    → (m : Bytes) × (mac_to_bytes mac ≡ ok m)
      × (parse_frame bytes ≡ read_fields m packet_type (length payload) payload)
parse_frame-build_frame mac packet_type payload bytes h stripped =
    let b = build_frame-IsBuilt mac packet_type payload bytes h in
    let (six, _, _) = format_mac-mac_to_bytes mac b.m b.has_mac in
    (
      b.m,
      b.has_mac,
      rw b.laid_out (
          parse_frame-layout b.m packet_type payload six b.type_fits b.ascii stripped
            b.payload_fits),
    )

-- `build_frame` returns a frame exactly if the payload's length fits its two bytes, the address is
-- one that `normalize_mac` accepts, and the type is ASCII of at most eight characters.
pub build_frame-accepts_iff :
    (mac packet_type : Text) (payload : Bytes)
    → ((bytes : Bytes) × (build_frame mac packet_type payload ≡ ok bytes)) ↔ (
        (n : Text) × (normalize_mac mac ≡ ok n)
        × (is_ascii packet_type ≡ true)
        × (length packet_type ≤ 8)
        × (length payload < 65536))
build_frame-accepts_iff mac packet_type payload = (
  λ (bytes, h).
      let b = build_frame-IsBuilt mac packet_type payload bytes h in
      let (_, _, norm) = format_mac-mac_to_bytes mac b.m b.has_mac in
      (format_mac b.m, norm, b.ascii, b.type_fits, b.payload_fits),
  λ (n, norm, ascii, type_fits, payload_fits).
      let (m, hm, _, _) = mac_to_bytes_of_normal mac n norm in
      (
        layout m (ljust 8 packet_type) payload,
        build_frame-layout mac packet_type payload m hm ascii type_fits payload_fits,
      ),
)

-- What the hub makes of a frame from a node.
pub record Arrives (mac packet_type : Text) (payload : Bytes) (n : Text) (parsed : Packet)
    : Type 0 where
  pub bytes : Bytes
  pub built : build_frame mac packet_type payload ≡ ok bytes
  pub frame : ParsedFrame
  pub read : parse_frame bytes ≡ ok frame
  pub same_mac : frame.mac ≡ n
  pub same_type : frame.packet_type ≡ packet_type
  pub same_payload : frame.payload ≡ payload
  pub same_packet : frame.parsed ≡ parsed

arrives :
    (mac packet_type : Text) (payload : Bytes) (n : Text) (parsed : Packet)
    → normalize_mac mac ≡ ok n
    → is_ascii packet_type ≡ true
    → length packet_type ≤ 8
    → rstrip packet_type ≡ packet_type
    → length payload < 65536
    → parse_packet packet_type payload ≡ ok parsed
    → Arrives mac packet_type payload n parsed
arrives mac packet_type payload n parsed norm ascii type_fits stripped fits accepted =
    let (m, hm, six, text) = mac_to_bytes_of_normal mac n norm in
    record {
      bytes = layout m (ljust 8 packet_type) payload;
      built = build_frame-layout mac packet_type payload m hm ascii type_fits fits;
      frame = record {
        mac = format_mac m;
        mac_bytes = m;
        packet_type = packet_type;
        packet_length = length payload;
        payload = payload;
        parsed = parsed;
      };
      read =
          rw (parse_frame-layout m packet_type payload six type_fits ascii stripped fits, accepted)
            refl;
      same_mac = text;
      same_type = refl;
      same_payload = refl;
      same_packet = refl;
    }

-- Any text of Unicode scalar values whose UTF-8 fits a frame, sent in an ALERT from any address
-- that `normalize_mac` accepts, arrives as that text, from that address in normal form.
pub alert-Arrives :
    (mac n message : Text)
    → normalize_mac mac ≡ ok n
    → All IsScalar message
    → length (encode message) < 65536
    → Arrives mac (codes "ALERT") (encode message) n (alert (record { message = message }))
alert-Arrives mac n message norm scalar fits =
    arrives mac (codes "ALERT") (encode message) n _ norm refl (omega arith) (unfold rstrip in refl)
      fits
      (unfold parse_packet text_eq in
        ap (λ (t : Text). ok (alert (record { message = t }))) (decode-encode message scalar))

-- Any packet whose fields fit the struct, and whose flag is the test of its fields, sent as
-- RAWDATA from any address that `normalize_mac` accepts, arrives as that packet, from that address
-- in normal form.
pub rawdata-Arrives :
    (mac n : Text) (p : RawDataPacket)
    → normalize_mac mac ≡ ok n
    → IsPacket p
    → Arrives mac (codes "RAWDATA") (pack p) n (rawdata p)
rawdata-Arrives mac n p norm h =
    arrives mac (codes "RAWDATA") (pack p) n _ norm refl (omega arith) (unfold rstrip in refl)
      (omega (arith, length-pack p, h.sixteen))
      (unfold parse_packet text_eq in rw (parse_rawdata-pack p h) refl)

-- A frame that `build_command_frame` builds is a COMMAND frame for the hub too, which rejects it.
pub parse_frame-build_command_frame :
    (mac command : Text) (bytes : Bytes)
    → build_command_frame mac command ≡ ok bytes
    → parse_frame bytes ≡ err (unknown_type (codes "COMMAND"))
unfolding build_command_frame
parse_frame-build_command_frame mac command bytes h =
    let (valid, _, built) = >>=-eq-ok (validate_command command) _ h in
    let (m, _, e) =
      parse_frame-build_frame mac (codes "COMMAND") (encode valid) bytes built
        (unfold rstrip in refl) in
    e ∙ (unfold parse_packet text_eq in refl)

-- An accepted command for an accepted address has a frame. Its length is that of the command and 18.
pub build_command_frame_total :
    (mac n command d : Text)
    → normalize_mac mac ≡ ok n
    → validate_command command ≡ ok d
    → (bytes : Bytes) × (build_command_frame mac command ≡ ok bytes)
      × (length bytes ≡ 18 + length d)
unfolding build_command_frame
build_command_frame_total mac n command d norm valid =
    let node = validate_command-IsNodeCommand command d valid in
    let (m, hm, six, _) = mac_to_bytes_of_normal mac n norm in
    let plain : encode d ≡ d = encode_ascii d node.is_ascii in
    let built =
      build_frame-layout mac (codes "COMMAND") d m hm refl (omega arith)
        (omega (arith, node.short)) in
    (
      layout m (ljust 8 (codes "COMMAND")) d,
      rw (valid, plain) built,
      length-layout m (ljust 8 (codes "COMMAND")) d six (omega arith),
    )
