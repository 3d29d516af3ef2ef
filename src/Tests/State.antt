-- ===== src/Tests/State.antt =====
-- The estimator at concrete inputs.
use slimhub_v.Prelude.{
  ℕ, ◌≡◌, refl, List, [], ◌∷◌, All, Text, codes, join, text_eq, false, some, ok,
}
use slimhub_v.Protocol.Mac.{normalize_mac, pairs}
use slimhub_v.Protocol.Command.{strong_enter, strong_exit}
use slimhub_v.Protocol.Rawdata.{RawDataPacket}
use slimhub_v.Events.{RawDataEvent, CommandEvent}
use slimhub_v.Unitspace.{
  UnitspaceStatus, initial, remember, command_event, handle, handle_signal, handle_enter,
  handle_all,
}
use slimhub_v.Unitspace.Commands.{IsTracking, IsTracking-initial, IsSendable, handle_all-IsSendable}
use slimhub_v.Unitspace.Occupancy.{nobody, Tracks}

-- Two nodes, in normal form and as they are typed.
abbrev kitchen : Text
kitchen = codes "C0:FF:EE:00:00:01"

abbrev hall : Text
hall = codes "C0:FF:EE:00:00:02"

abbrev packet : ℕ → RawDataPacket
packet detected = record {
  flag_human_presence = 1;
  detected = detected;
  flag_env = 0;
  temperature_c = 0;
  humidity = 0;
  iaq = 0;
  eco2 = 0;
  bvoc = 0;
  accuracy = 0;
  flag_sound = 0;
  sound = [];
  is_pir_human_detection_event = false;
}

abbrev event : Text → ℕ → RawDataEvent
event mac detected = record {
  timestamp = 7;
  mac = mac;
  location = codes "room";
  packet = packet detected;
  payload = [];
  device_type = [];
}

abbrev room : Text
room = codes "room"

-- Someone enters the kitchen, and then the hall.
abbrev walk : List RawDataEvent
walk = event kitchen 1 ∷ event hall 10 ∷ []

abbrev walked : List CommandEvent × UnitspaceStatus
walked = (
  command_event kitchen strong_enter room
      ∷ command_event hall strong_enter room
      ∷ command_event kitchen strong_exit room
      ∷ [],
  record { last_address = some hall; last_location = some room; last_timestamp = 7 },
)

walk_handled : handle_all initial walk ≡ ok walked
unfolding handle_all handle handle_signal handle_enter remember normalize_mac join pairs text_eq
walk_handled = refl

nobody-Tracks : Tracks nobody initial
nobody-Tracks a = refl

handle_all-IsSendable_example : All IsSendable walked.0 × IsTracking walked.1
handle_all-IsSendable_example =
    handle_all-IsSendable walk initial walked IsTracking-initial walk_handled
