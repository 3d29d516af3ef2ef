-- ===== src/Unitspace.antt =====
-- slimhub/unitspace/estimator.py: `UnitspaceStatus` and `SimpleUnitspaceEstimator`, whose state is
-- its status. `handle` returns the commands and the new state, or the error of `normalize_mac`, which
-- is raised before the state is touched.
pub mod Commands
pub mod Occupancy
use slimhub_v.Prelude.{
  ℕ, ◌+◌, ◌*◌, Bool, ◌||◌, List, [], ◌∷◌, ◌++◌, ltb, ◌==◌, if◌then◌else◌, Text, text_eq, Option,
  none, some, Result, ok, ◌>>=◌,
}
use slimhub_v.Protocol.Mac.{normalize_mac}
use slimhub_v.Protocol.Command.{strong_enter, strong_exit}
use slimhub_v.Config.{default_location}
use slimhub_v.Events.{RawDataEvent, CommandEvent, text_or, option_or}

-- `signal in ENTER_SIGNALS`
abbrev pub is_enter_signal : ℕ → Bool
is_enter_signal signal = signal == 1 || signal == 10

abbrev pub exit_signal : ℕ
exit_signal = 20

-- 5.0 seconds
abbrev pub noise_threshold : ℕ
noise_threshold = 5_000_000

pub record UnitspaceStatus : Type 0 where
  pub last_address : Option Text
  pub last_location : Option Text
  pub last_timestamp : ℕ

abbrev pub initial : UnitspaceStatus
initial = record { last_address = none; last_location = none; last_timestamp = 0 }

unfoldable pub remember : Text → Text → ℕ → UnitspaceStatus → UnitspaceStatus
remember address location timestamp status = record {
  last_address = some address;
  last_location = some location;
  last_timestamp = timestamp;
}

abbrev pub command_event : Text → Text → Text → CommandEvent
command_event address command location = record {
  address = address;
  command = command;
  location = location;
}

unfoldable pub handle_enter :
    Text → Text → ℕ → UnitspaceStatus → List CommandEvent × UnitspaceStatus
unfolding remember
handle_enter address location timestamp status = elim status.last_address [
  | none ↦
      (command_event address strong_enter location ∷ [], remember address location timestamp status)
  | some previous_address ↦
      if text_eq address previous_address
      then (if ltb timestamp (status.last_timestamp + noise_threshold)
          then ([], remember address location timestamp status)
          else ([], remember address location timestamp status))
      else (let previous_location = option_or status.last_location default_location in
          (
            command_event address strong_enter location
                ∷ command_event previous_address strong_exit previous_location
                ∷ [],
            remember address location timestamp status,
          ))
]

-- The part of `handle` after the address is normalized.
unfoldable pub handle_signal :
    Text → RawDataEvent → UnitspaceStatus → List CommandEvent × UnitspaceStatus
unfolding handle_enter remember
handle_signal address event status =
    let location = text_or event.location default_location in
    let signal = event.packet.detected in
    if is_enter_signal signal
    then handle_enter address location event.timestamp status
    else if signal == exit_signal
    then (
      command_event address strong_exit location ∷ [],
      remember address location event.timestamp status,
    )
    else ([], status)

unfoldable pub handle :
    UnitspaceStatus → RawDataEvent → Result (List CommandEvent × UnitspaceStatus)
unfolding handle_signal
handle status event =
    if event.packet.flag_human_presence == 1
    then (do address ← normalize_mac event.mac; ok (handle_signal address event status))
    else ok ([], status)

-- The events of a history, one after the other.
unfoldable pub handle_all :
    UnitspaceStatus → List RawDataEvent → Result (List CommandEvent × UnitspaceStatus)
unfolding handle
handle_all status [] = ok ([], status)
handle_all status (event ∷ events) = do
  (commands, status') ← handle status event
  (more, status'') ← handle_all status' events
  ok (commands ++ more, status'')
