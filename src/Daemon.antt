-- ===== src/Daemon.antt =====
-- `SlimHubDaemon` of slimhub/daemon.py: its config files, its sessions, its estimator, and the events
-- that it has given to the raw logger, in order. The logger's task is running, so that `log` and
-- `log_alert` put an event in its queue. Log lines are left out.
pub mod Begin
pub mod Delivery
pub mod Frames
pub mod Requests
pub mod Response
pub mod Sessions
pub mod Socket
pub mod Streams
pub mod Report
pub mod Arguments
pub mod Dispatch
pub mod Written
pub mod History
pub mod Moves
pub mod Presence
pub mod Run
pub mod Scan
pub mod Reach
use slimhub_v.Prelude.{
  ℕ, Bool, true, false, List, [], ◌∷◌, ◌++◌, if◌then◌else◌, get_elem?, Text, codes, text_eq, Option,
  none, some, Result, ok, err, ◌>>=◌, ◌>>◌, address_required, bad_command, no_session, bad_action,
}
use slimhub_v.Protocol.Mac.{normalize_mac}
use slimhub_v.Protocol.Command.{validate_command}
use slimhub_v.Protocol.Rawdata.{RawDataPacket}
use slimhub_v.Protocol.Frame.{AlertPacket, Packet, rawdata, alert, ParsedFrame}
use slimhub_v.Events.{RawDataEvent, AlertEvent, CommandEvent, text_or, option_or}
use slimhub_v.Unitspace.{UnitspaceStatus, handle}
use slimhub_v.Config.{DeviceConfig, Files, default_device_type, load, save, ensure, list_all}
pub use slimhub_v.Logger.Queue.{Logged, raw, alerted}
use slimhub_v.Ble.Registry.{register_alias, get}
use slimhub_v.Ble.Session.{Target, DeviceSession, Status, status}
use slimhub_v.Ble.Central.{BleCentral, modify, ensure_target, ensure_address, send_command}

pub record SlimHubDaemon : Type 0 where
  pub files : Files
  pub central : BleCentral
  pub estimator : UnitspaceStatus
  pub log : List Logged

-- The loop over the commands: those that were sent, and the sessions after that.
unfoldable pub send_all : List CommandEvent → BleCentral → Result (List CommandEvent × BleCentral)
send_all [] c = ok ([], c)
send_all (command ∷ commands) c = do
  (sent, c') ← send_command command c
  (sent_commands, c'') ← send_all commands c'
  ok (if sent then command ∷ sent_commands else sent_commands, c'')

abbrev pub raw_event : ℕ → ParsedFrame → RawDataPacket → DeviceConfig → RawDataEvent
raw_event now frame packet config = record {
  timestamp = now;
  mac = frame.mac;
  location = config.location;
  packet = packet;
  payload = frame.payload;
  device_type = config.type;
}

abbrev pub alert_event : ℕ → ParsedFrame → AlertPacket → DeviceConfig → AlertEvent
alert_event now frame packet config = record {
  timestamp = now;
  mac = frame.mac;
  location = config.location;
  packet = packet;
  payload = frame.payload;
  device_type = config.type;
}

-- The branches on the packet.
unfoldable pub handle_packet :
    ℕ → ParsedFrame → Packet → SlimHubDaemon → Result (List CommandEvent × SlimHubDaemon)
handle_packet now frame (rawdata packet) d = do
  config ← load d.files frame.mac
  (saved, files) ← save d.files config
  let event = raw_event now frame packet saved
  (commands, estimator) ← handle d.estimator event
  (sent_commands, central) ← send_all commands d.central
  ok (
    sent_commands,
    record {
      files = files;
      central = central;
      estimator = estimator;
      log = d.log ++ raw event ∷ [];
    },
  )
handle_packet now frame (alert packet) d = do
  config ← load d.files frame.mac
  (saved, files) ← save d.files config
  let event = alert_event now frame packet saved
  ok ([], record d { files = files; log = d.log ++ alerted event ∷ [] })

-- The commands that were sent, and the daemon after the frame.
unfoldable pub handle_frame :
    ℕ → Text → ParsedFrame → SlimHubDaemon → Result (List CommandEvent × SlimHubDaemon)
handle_frame now source_address frame d = do
  registry ← register_alias d.central.registry frame.mac source_address
  handle_packet now frame frame.parsed
      (record d { central = record d.central { registry = registry } })

-- Frame after frame, as the session creates their tasks.
unfoldable pub handle_frames : ℕ → Text → List ParsedFrame → SlimHubDaemon → Result SlimHubDaemon
handle_frames now source_address [] d = ok d
handle_frames now source_address (frame ∷ frames) d = do
  (sent, d') ← handle_frame now source_address frame d
  handle_frames now source_address frames d'

abbrev pub status_of : Option DeviceSession → Option Status
status_of none = none
status_of (some s) = some (status s)

abbrev pub name_of : Option DeviceSession → Text
name_of none = []
name_of (some s) = s.name

-- The daemon after a session was ensured, or not.
abbrev pub kept_central : SlimHubDaemon → Result (ℕ × BleCentral) → SlimHubDaemon
kept_central d (err e) = d
kept_central d (ok (session, central)) = record d { central = central }

unfoldable pub connect_address : ℕ → Text → SlimHubDaemon → Result (Option Status × SlimHubDaemon)
connect_address now address d = do
  normalized ← normalize_mac address
  (session, central) ← ensure_address now normalized d.central
  let s = get_elem? central.heap session
  (config, files) ← ensure d.files normalized (text_or (name_of s) default_device_type) []
  ok (status_of s, record d { central = central; files = files })

unfoldable pub start_or_update_session : ℕ → Target → SlimHubDaemon → Result SlimHubDaemon
start_or_update_session now target d = do
  address ← normalize_mac target.address
  (session, central) ← ensure_target now target d.central
  (config, files) ← ensure d.files address (text_or target.name default_device_type) target.name
  ok (record d { central = central; files = files })
