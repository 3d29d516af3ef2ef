-- ===== src/Protocol/Frame.antt =====
-- Frames of slimhub/protocol/nus.py: `build_frame`, `build_command_frame`, `parse_alert`,
-- `parse_frame`. The MAC and the packet type have fixed lengths, the payload the length that the two
-- bytes before it say, and the frame ends in 0D 0A.
pub mod Describe
pub mod Layout
pub mod RoundTrip
pub mod Canonical
use slimhub_v.Prelude.{
  ℕ, zero, suc, ◌+◌, ◌-◌, ◌*◌, ◌/◌, ◌%◌, Bool, true, false, not, List, [], ◌∷◌, ◌++◌, map, ltb,
  ◌==◌, if◌then◌else◌, length, take, drop, slice, replicate, all, Text, Bytes, codes, text_eq,
  Result, ok, err, ◌>>=◌, ◌>>◌, require, packet_type_not_ascii, packet_type_too_long,
  payload_too_large, frame_too_short, length_mismatch, end_flag_mismatch, type_not_ascii,
  unknown_type,
}
use slimhub_v.Protocol.Mac.{mac_len, mac_to_bytes, format_mac}
use slimhub_v.Protocol.Command.{validate_command}
use slimhub_v.Protocol.Rawdata.{RawDataPacket, parse_rawdata}
use slimhub_v.Protocol.Utf8
use slimhub_v.Protocol.Utf8.{decode}

abbrev pub packet_type_len : ℕ
packet_type_len = 8

abbrev pub packet_len_len : ℕ
packet_len_len = 2

abbrev pub header_len : ℕ
header_len = mac_len + packet_type_len + packet_len_len

abbrev pub end_flag : Bytes
end_flag = 0x0d ∷ 0x0a ∷ []

abbrev pub end_flag_len : ℕ
end_flag_len = length end_flag

pub record AlertPacket : Type 0 where
  pub message : Text

-- `RawDataPacket | AlertPacket`
pub data Packet : Type 0 where
  rawdata : RawDataPacket → Packet
  alert : AlertPacket → Packet

pub record ParsedFrame : Type 0 where
  pub mac : Text
  pub mac_bytes : Bytes
  pub packet_type : Text
  pub packet_length : ℕ
  pub payload : Bytes
  pub parsed : Packet

-- `encode("ascii")` and `decode("ascii")` go through if every element is below 128.
abbrev pub is_ascii : List ℕ → Bool
is_ascii = all (λ c. ltb c 128)

-- `raw.ljust(PACKET_TYPE_LEN, b"\x00")`
abbrev pub ljust : ℕ → Bytes → Bytes
ljust n bs = bs ++ replicate (n - length bs) 0

-- `raw.rstrip(b"\x00")`
abbrev pub strip_cons : ℕ → Bytes → Bytes
strip_cons b [] = if b == 0 then [] else b ∷ []
strip_cons b (c ∷ bs) = b ∷ c ∷ bs

unfoldable pub rstrip : Bytes → Bytes
rstrip [] = []
rstrip (b ∷ bs) = strip_cons b (rstrip bs)

-- `int.from_bytes(bs, byteorder="little", signed=False)`
unfoldable pub from_le : Bytes → ℕ
from_le [] = 0
from_le (b ∷ bs) = b + 256 * from_le bs

-- `n.to_bytes(2, byteorder="little", signed=False)` for n ≤ 0xffff
abbrev pub to_le : ℕ → Bytes
to_le n = n % 256 ∷ n / 256 ∷ []

unfoldable pub packet_type_bytes : Text → Result Bytes
packet_type_bytes packet_type = do
  require (is_ascii packet_type) packet_type_not_ascii
  require (not (ltb packet_type_len (length packet_type))) packet_type_too_long
  ok (ljust packet_type_len packet_type)

unfoldable pub build_frame : Text → Text → Bytes → Result Bytes
unfolding packet_type_bytes
build_frame mac packet_type payload = do
  require (not (ltb 0xffff (length payload))) payload_too_large
  m ← mac_to_bytes mac
  t ← packet_type_bytes packet_type
  ok (m ++ (t ++ (to_le (length payload) ++ (payload ++ end_flag))))

unfoldable pub build_command_frame : Text → Text → Result Bytes
build_command_frame mac command = do
  valid ← validate_command command
  build_frame mac (codes "COMMAND") (Utf8.encode valid)

abbrev pub parse_alert : Bytes → AlertPacket
parse_alert payload = record { message = decode payload }

-- The choice on the packet type.
unfoldable pub parse_packet : Text → Bytes → Result Packet
parse_packet packet_type payload =
    if text_eq packet_type (codes "RAWDATA")
    then (do p ← parse_rawdata payload; ok (rawdata p))
    else if text_eq packet_type (codes "ALERT")
    then ok (alert (parse_alert payload))
    else err (unknown_type packet_type)

unfoldable pub parse_frame : Bytes → Result ParsedFrame
unfolding rstrip from_le parse_packet
parse_frame bytes = do
  require (not (ltb (length bytes) (header_len + end_flag_len))) (frame_too_short (length bytes))
  let mac_bytes = take mac_len bytes
  let raw_packet_type = slice mac_len (mac_len + packet_type_len) bytes
  let packet_length = from_le (slice (mac_len + packet_type_len) header_len bytes)
  let expected_len = header_len + packet_length + end_flag_len
  require (length bytes == expected_len) (length_mismatch expected_len (length bytes))
  let tail = drop (length bytes - end_flag_len) bytes
  require (text_eq tail end_flag) (end_flag_mismatch tail)
  let packet_type = rstrip raw_packet_type
  require (is_ascii packet_type) (type_not_ascii raw_packet_type)
  let payload = slice header_len (header_len + packet_length) bytes
  parsed ← parse_packet packet_type payload
  ok (record {
    mac = format_mac mac_bytes;
    mac_bytes = mac_bytes;
    packet_type = packet_type;
    packet_length = packet_length;
    payload = payload;
    parsed = parsed;
  })
