-- ===== src/Protocol/Frame/Describe.antt =====
-- `describe_frame` of slimhub/protocol/nus.py: the labelled values of a frame, in order. How a value is
-- printed (decimal digits, two decimals, `repr`) and the commas between the parts are left out.
use slimhub_v.Prelude.{ℕ, Bool, true, false, if◌then◌else◌, List, [], ◌∷◌, ◌++◌, Text, codes, ◌==◌}
use slimhub_v.Prelude.Int.{ℤ}
use slimhub_v.Protocol.Rawdata.{RawDataPacket}
use slimhub_v.Protocol.Frame.{Packet, rawdata, alert, ParsedFrame}

pub data Value : Type 0 where
  text_value quoted : Text → Value
  whole hundredths : ℕ → Value
  values : List ℤ → Value

pub record Description : Type 0 where
  pub kind : Text
  pub parts : List (Text × Value)

abbrev pir_part : Bool → List (Text × Value)
pir_part true = (codes "event", text_value (codes "PIR human detection")) ∷ []
pir_part false = []

abbrev env_parts : RawDataPacket → List (Text × Value)
env_parts parsed =
    if parsed.flag_env == 1
    then (codes "temperature", hundredths parsed.temperature_c)
      ∷ (codes "humidity", whole parsed.humidity)
      ∷ (codes "iaq", whole parsed.iaq)
      ∷ (codes "eco2", whole parsed.eco2)
      ∷ (codes "bvoc", whole parsed.bvoc)
      ∷ (codes "accuracy", whole parsed.accuracy)
      ∷ []
    else (codes "flag_env", whole parsed.flag_env) ∷ []

abbrev sound_part : RawDataPacket → Text × Value
sound_part parsed =
    if parsed.flag_sound == 1
    then (codes "sound", values parsed.sound)
    else (codes "flag_sound", whole parsed.flag_sound)

abbrev describe_packet : Text → ℕ → Packet → Description
describe_packet mac packet_length (alert parsed) = record {
  kind = codes "ALERT";
  parts =
      (codes "mac", text_value mac)
      ∷ (codes "length", whole packet_length)
      ∷ (codes "message", quoted parsed.message)
      ∷ [];
}
describe_packet mac packet_length (rawdata parsed) = record {
  kind = codes "RAWDATA";
  parts =
      (codes "mac", text_value mac)
        ∷ (codes "length", whole packet_length)
        ∷ (codes "human_presence", whole parsed.flag_human_presence)
        ∷ (codes "detected", whole parsed.detected)
        ∷ pir_part parsed.is_pir_human_detection_event
      ++ (env_parts parsed ++ sound_part parsed ∷ []);
}

unfoldable pub describe_frame : ParsedFrame → Description
describe_frame frame = describe_packet frame.mac frame.packet_length frame.parsed
