-- ===== src/Daemon/Requests.antt =====
-- The requests of slimhub/daemon.py that look up a session: `send_command`, `apply_config`,
-- `service_command` and `unsupported_device_command`.
pub mod Soundness
use slimhub_v.Prelude.{
  ℕ, Bool, true, false, List, [], ◌∷◌, ◌++◌, if◌then◌else◌, get_elem?, Text, codes, text_eq, Option,
  none, some, Result, ok, err, ◌>>=◌, address_required, bad_command, no_session, bad_action,
}
use slimhub_v.Protocol.Mac.{normalize_mac}
use slimhub_v.Protocol.Command.{validate_command}
use slimhub_v.Events.{text_or, option_or}
use slimhub_v.Config.{DeviceConfig, load, list_all}
use slimhub_v.Ble.Registry.{get}
use slimhub_v.Ble.Session.{DeviceSession, Status}
use slimhub_v.Ble.Central.{BleCentral, modify, send_command}
use slimhub_v.Daemon.{SlimHubDaemon, status_of}

-- What `send_command` answers.
pub record Sending : Type 0 where
  pub address : Text
  pub command : Text
  pub session : Option Status

abbrev pub accept_sent :
    Text → Text → ℕ → Bool → BleCentral → SlimHubDaemon → Result (Sending × SlimHubDaemon)
accept_sent address command session false c d = err (no_session address)
accept_sent address command session true c d = ok (
  record { address = address; command = command; session = status_of (get_elem? c.heap session) },
  record d { central = c },
)

abbrev pub send_to : Text → Text → Option ℕ → SlimHubDaemon → Result (Sending × SlimHubDaemon)
send_to address command none d = err (no_session address)
send_to address command (some session) d = do
  config ← load d.files address
  (sent, c) ←
      send_command (record { address = address; command = command; location = config.location })
        d.central
  accept_sent address command session sent c d

-- The two arguments come from JSON: none is a value that is no string.
unfoldable pub command_device :
    Option Text → Option Text → SlimHubDaemon → Result (Sending × SlimHubDaemon)
command_device none command d = err address_required
command_device (some []) command d = err address_required
command_device (some (x ∷ address)) none d = err bad_command
command_device (some (x ∷ address)) (some command) d = do
  normalized_address ← normalize_mac (x ∷ address)
  validated_command ← validate_command command
  session ← get d.central.registry normalized_address
  send_to normalized_address validated_command session d

abbrev rename : Text → DeviceSession → DeviceSession
rename name s = record s { name = text_or name s.name }

abbrev pub rename_found : Text → BleCentral → Option ℕ → BleCentral
rename_found name c none = c
rename_found name c (some session) = record c { heap = modify session (rename name) c.heap }

unfoldable pub apply_all : List DeviceConfig → BleCentral → Result BleCentral
apply_all [] c = ok c
apply_all (config ∷ configs) c = do
  session ← get c.registry config.address
  apply_all configs (rename_found config.name c session)

unfoldable pub apply_config : SlimHubDaemon → Result SlimHubDaemon
apply_config d = do
  configs ← list_all d.files
  central ← apply_all configs d.central
  ok (record d { central = central })

abbrev pub session_at : BleCentral → Option ℕ → Option DeviceSession
session_at c none = none
session_at c (some session) = get_elem? c.heap session

abbrev service_answer : Text → Text → Text → Text → Result Text
service_answer address action service characteristic =
    if text_eq action (codes "enable")
    then ok (
        address
        ++ codes ": characteristic "
        ++ service
        ++ codes " "
        ++ characteristic
        ++ codes " enabled")
    else if text_eq action (codes "disable")
    then ok (
        address
        ++ codes ": characteristic "
        ++ service
        ++ codes " "
        ++ characteristic
        ++ codes " disabled")
    else if text_eq action (codes "activate")
    then ok (address ++ codes ": service " ++ service ++ codes " activated")
    else if text_eq action (codes "deactivate")
    then ok (address ++ codes ": service " ++ service ++ codes " deactivated")
    else err bad_action

abbrev service_reply : Text → Text → Text → Text → Option DeviceSession → Result Text
service_reply address action service characteristic none =
    ok (address ++ codes " is not registered")
service_reply address action service characteristic (some s) =
    if s.connected
    then service_answer address action service characteristic
    else ok (address ++ codes " is not connected")

-- An absent characteristic is the empty text.
unfoldable pub service_command : Text → Text → Text → Option Text → SlimHubDaemon → Result Text
service_command address action service characteristic d = do
  normalized ← normalize_mac address
  session ← get d.central.registry normalized
  service_reply normalized action service (option_or characteristic [])
      (session_at d.central session)

-- `unsupported_device_command`
abbrev unsupported_reply : Text → Text → Text → Option ℕ → Text
unsupported_reply address command_name detail none = address ++ codes " is not registered"
unsupported_reply address command_name [] (some session) =
    command_name ++ codes " is not supported by SLIMHUB_v2 NUS-only daemon"
unsupported_reply address command_name (x ∷ detail) (some session) =
    command_name
    ++ codes " "
    ++ x ∷ detail
    ++ codes " is not supported by SLIMHUB_v2 NUS-only daemon"

unfoldable pub unsupported_device_command : Text → Text → Text → SlimHubDaemon → Result Text
unsupported_device_command address command_name detail d = do
  normalized ← normalize_mac address
  session ← get d.central.registry normalized
  ok (unsupported_reply normalized command_name detail session)
