-- ===== src/Protocol/Rawdata.antt =====
-- The RAWDATA payload of slimhub/protocol/nus.py: `RawDataPacket` and `parse_rawdata`.
-- `struct.unpack("<BB7HB16b", payload)` is read field by field. `temperature_c` is a number of
-- hundredths, which is what the division by 100.0 stands for.
pub mod Laws
use slimhub_v.Prelude.{
  ℕ, ◌+◌, ◌-◌, ◌*◌, Bool, true, false, ◌&&◌, List, [], ◌∷◌, map, ltb, ◌==◌, if◌then◌else◌, length,
  drop, all, get_or, Bytes, Result, ok, err, rawdata_length,
}
use slimhub_v.Prelude.Int.{ℤ, pos, negsuc}

abbrev pub rawdata_payload_len : ℕ
rawdata_payload_len = 33

pub record RawDataPacket : Type 0 where
  pub flag_human_presence : ℕ
  pub detected : ℕ
  pub flag_env : ℕ
  pub temperature_c : ℕ
  pub humidity : ℕ
  pub iaq : ℕ
  pub eco2 : ℕ
  pub bvoc : ℕ
  pub accuracy : ℕ
  pub flag_sound : ℕ
  pub sound : List ℤ
  pub is_pir_human_detection_event : Bool

-- `B`, `H` and `b` of a little-endian struct
abbrev pub u8 : Bytes → ℕ → ℕ
u8 payload i = get_or payload i 0

abbrev pub u16 : Bytes → ℕ → ℕ
u16 payload i = get_or payload i 0 + 256 * get_or payload (i + 1) 0

abbrev pub i8 : ℕ → ℤ
i8 b = if ltb b 128 then pos b else negsuc (255 - b)

abbrev pub is_zero : ℤ → Bool
is_zero (pos n) = n == 0
is_zero (negsuc n) = false

-- The tests on the unpacked fields: `remaining_fields_are_zero` and `is_pir_event`.
abbrev pub is_pir_event : RawDataPacket → Bool
is_pir_event p =
    p.flag_human_presence == 1
    && p.detected == 1
    && (p.flag_env == 0
        && p.temperature_c == 0
        && p.humidity == 0
        && p.iaq == 0
        && p.eco2 == 0
        && p.bvoc == 0
        && p.accuracy == 0
        && p.flag_sound == 0
        && all is_zero p.sound)

abbrev pub unpack : Bytes → RawDataPacket
unpack payload = record {
  flag_human_presence = u8 payload 0;
  detected = u8 payload 1;
  flag_env = u16 payload 2;
  temperature_c = u16 payload 4;
  humidity = u16 payload 6;
  iaq = u16 payload 8;
  eco2 = u16 payload 10;
  bvoc = u16 payload 12;
  accuracy = u16 payload 14;
  flag_sound = u8 payload 16;
  sound = map i8 (drop 17 payload);
  is_pir_human_detection_event = false;
}

unfoldable pub parse_rawdata : Bytes → Result RawDataPacket
parse_rawdata payload =
    if length payload == rawdata_payload_len
    then (let p = unpack payload in ok (record p { is_pir_human_detection_event = is_pir_event p }))
    else err (rawdata_length (length payload))
