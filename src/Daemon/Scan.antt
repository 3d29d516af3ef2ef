-- ===== src/Daemon/Scan.antt =====
-- The scans of the daemon: `_scan_loop` and `_start_or_update_session` of slimhub/daemon.py, with
-- `discover_named_devices` of slimhub/ble/scanner.py. What a scan of the adapter gives is an argument.
pub mod Found
use slimhub_v.Prelude.{
  ℕ, ◌≡◌, refl, sym, ap, ◌∙◌, ◌||◌, Bool, true, false, if◌then◌else◌, List, [], ◌∷◌, All, Text,
  text_eq, Option, none, some, Result, ok, err, ◌>>=◌,
}
use slimhub_v.Protocol.Mac.{normalize_mac}
use slimhub_v.Events.{option_or}
use slimhub_v.Ble.Registry.{get}
use slimhub_v.Ble.Session.{Target}
use slimhub_v.Ble.Central.{BleCentral, ensure_target}
use slimhub_v.Daemon.{SlimHubDaemon, kept_central, start_or_update_session}
use slimhub_v.Daemon.Frames.{IsSound}

-- A device with its advertisement.
pub record Advertised : Type 0 where
  pub address : Text
  pub device_name : Option Text
  pub local_name : Option Text

abbrev pub is_named : Text → Option Text → Bool
is_named name none = false
is_named name (some other) = text_eq other name

abbrev pub target_of : Advertised → Target
target_of device = record { address = device.address; name = option_or device.device_name [] }

unfoldable pub discover_named_devices : Text → List Advertised → List Target
discover_named_devices name [] = []
discover_named_devices name (device ∷ devices) =
    let matches = discover_named_devices name devices in
    if is_named name device.device_name || is_named name device.local_name
    then target_of device ∷ matches
    else matches

-- What `_start_or_update_session` leaves when it raises: the session stays if it was ensured.
unfoldable pub left_by_start : ℕ → Target → SlimHubDaemon → SlimHubDaemon
left_by_start now target d =
    kept_central d (do address ← normalize_mac target.address; ensure_target now target d.central)

-- The loop over the devices; an exception ends the round.
unfoldable pub start_all : ℕ → List Target → SlimHubDaemon → SlimHubDaemon
unfolding left_by_start
start_all now [] d = d
start_all now (target ∷ targets) d = elim (start_or_update_session now target d) [
  | err e ↦ left_by_start now target d
  | ok d' ↦ start_all now targets d'
]

-- A round: the adapter's answer, or the exception that the scan raised.
unfoldable pub scan_round : Text → ℕ → Result (List Advertised) → SlimHubDaemon → SlimHubDaemon
unfolding discover_named_devices start_all
scan_round name now (err e) d = d
scan_round name now (ok devices) d = start_all now (discover_named_devices name devices) d

-- The rounds until `stop_event` is set.
unfoldable pub scan_loop :
    Text → List (ℕ × Result (List Advertised)) → SlimHubDaemon → SlimHubDaemon
unfolding scan_round
scan_loop name [] d = d
scan_loop name ((now, found) ∷ rounds) d = scan_loop name rounds (scan_round name now found d)
