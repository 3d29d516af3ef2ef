-- ===== src/Tests/Wire.antt =====
-- Addresses, frames and streams of the protocol, at concrete inputs.
use slimhub_v.Prelude.{
  ◌≡◌, refl, ◌↔◌, ◌⊎◌, ◌≤◌, ◌<◌, List, [], ◌∷◌, ◌++◌, arith, length, replicate, concat, All,
  text_eq, IsByte, Text, Bytes, codes, join, true, ok,
}
use slimhub_v.Prelude.Int.{pos}
use slimhub_v.Protocol.Mac.{
  normalize_mac, mac_to_bytes, format_mac, pairs, split, int16, int16_digits, parts_to_bytes,
}
use slimhub_v.Protocol.Rawdata.{RawDataPacket}
use slimhub_v.Protocol.Rawdata.Laws.{pack, IsPacket}
use slimhub_v.Protocol.Utf8.{encode, encode_char, decode, decode_from, feed, lead}
use slimhub_v.Protocol.Frame.{
  rawdata, alert, ParsedFrame, from_le, rstrip, is_ascii, ljust, end_flag, packet_type_bytes,
  build_frame, parse_packet, parse_frame,
}
use slimhub_v.Protocol.Frame.Layout.{layout}
use slimhub_v.Protocol.Frame.RoundTrip.{
  build_frame-accepts_iff, Arrives, alert-Arrives, rawdata-Arrives,
}
use slimhub_v.Protocol.Frame.Canonical.{build_frame-parse_frame}
use slimhub_v.Protocol.Assembler.{FrameAssembler, examine, push, push_all}
use slimhub_v.Protocol.Assembler.Chunks.{IsSettled, push-bounded, push_all-concat}
use slimhub_v.Ble.Notify.{notify_all}
use slimhub_v.Ble.Notify.Streams.{Sent, notify_all_stream}

abbrev pub node : Text
node = codes "c0ffee000001"

abbrev pub node_mac : Text
node_mac = codes "C0:FF:EE:00:00:01"

abbrev pub node_bytes : Bytes
node_bytes = 0xc0 ∷ 0xff ∷ 0xee ∷ 0 ∷ 0 ∷ 1 ∷ []

abbrev pub low : Text
low = codes "low"

pub node_normal : normalize_mac node ≡ ok node_mac
unfolding normalize_mac join pairs
node_normal = refl

node_read : mac_to_bytes node ≡ ok node_bytes
unfolding mac_to_bytes normalize_mac join pairs split int16 int16_digits parts_to_bytes
node_read = refl

abbrev pub alert_bytes : Bytes
alert_bytes = layout node_bytes (ljust 8 (codes "ALERT")) low

abbrev pub alert_frame : ParsedFrame
alert_frame = record {
  mac = node_mac;
  mac_bytes = node_bytes;
  packet_type = codes "ALERT";
  packet_length = 3;
  payload = low;
  parsed = alert (record { message = low });
}

pub alert_built : build_frame node (codes "ALERT") low ≡ ok alert_bytes
unfolding build_frame packet_type_bytes
alert_built = rw node_read refl

pub alert_read : parse_frame alert_bytes ≡ ok alert_frame
unfolding parse_frame parse_packet from_le rstrip format_mac join decode decode_from feed lead
    text_eq
alert_read = refl

abbrev pub sent : List Sent
sent =
    record {
      mac = node;
      packet_type = codes "ALERT";
      payload = low;
      bytes = alert_bytes;
      frame = alert_frame;
      built = alert_built;
      read = alert_read;
    }
    ∷ []

-- The frame, cut after 10 bytes.
abbrev pub chunks : List Bytes
chunks = (node_bytes ++ codes "ALER") ∷ (84 ∷ 0 ∷ 0 ∷ 0 ∷ 3 ∷ 0 ∷ low ++ end_flag) ∷ []

abbrev fresh : FrameAssembler
fresh = record { buffer = []; max_frame_len = 4096 }

fresh-IsSettled : IsSettled fresh
unfolding examine
fresh-IsSettled = refl

pub bytes_below : All IsByte alert_bytes
bytes_below = omega arith

push_all-concat_example : push_all fresh chunks ≡ push fresh (concat chunks)
push_all-concat_example = push_all-concat chunks fresh fresh-IsSettled

build_frame-parse_frame_example : build_frame node_mac (codes "ALERT") low ≡ ok alert_bytes
build_frame-parse_frame_example =
    build_frame-parse_frame alert_bytes alert_frame bytes_below alert_read

notify_all_stream_example : notify_all fresh chunks ≡ (alert_frame ∷ [], fresh)
notify_all_stream_example = notify_all_stream 4096 sent chunks (omega arith, tt) refl

alert-Arrives_example :
    Arrives node
      (codes "ALERT")
      (encode (233 ∷ []))
      node_mac
      (alert (record { message = 233 ∷ [] }))
unfolding encode encode_char
alert-Arrives_example =
    alert-Arrives node node_mac (233 ∷ []) node_normal (omega arith) (omega arith)

build_frame-accepts_iff_example :
    ((bytes : Bytes) × (build_frame node (codes "ALERT") low ≡ ok bytes)) ↔ (
      (n : Text) × (normalize_mac node ≡ ok n)
      × (is_ascii (codes "ALERT") ≡ true)
      × (length (codes "ALERT") ≤ 8)
      × (length low < 65536))
build_frame-accepts_iff_example = build_frame-accepts_iff node (codes "ALERT") low

push-bounded_example :
    ((length (push fresh alert_bytes).1.buffer < 18)
      ⊎ (length (push fresh alert_bytes).1.buffer < (push fresh alert_bytes).1.max_frame_len))
    × ((push fresh alert_bytes).1.max_frame_len ≡ 4096)
push-bounded_example = push-bounded fresh alert_bytes

abbrev pub pir : RawDataPacket
pir = record {
  flag_human_presence = 1;
  detected = 1;
  flag_env = 0;
  temperature_c = 0;
  humidity = 0;
  iaq = 0;
  eco2 = 0;
  bvoc = 0;
  accuracy = 0;
  flag_sound = 0;
  sound = replicate 16 (pos 0);
  is_pir_human_detection_event = true;
}

pir-IsPacket : IsPacket pir
pir-IsPacket = record {
  flag_human_presence = omega arith;
  detected = omega arith;
  flag_env = omega arith;
  temperature_c = omega arith;
  humidity = omega arith;
  iaq = omega arith;
  eco2 = omega arith;
  bvoc = omega arith;
  accuracy = omega arith;
  flag_sound = omega arith;
  sound = omega arith;
  sixteen = refl;
  pir = refl;
}

rawdata-Arrives_example : Arrives node (codes "RAWDATA") (pack pir) node_mac (rawdata pir)
rawdata-Arrives_example = rawdata-Arrives node node_mac pir node_normal pir-IsPacket
