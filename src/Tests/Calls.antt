-- ===== src/Tests/Calls.antt =====
-- Requests, command lines, scans and the reader at concrete inputs.
use slimhub_v.Prelude.{
  is_encodable, ℕ, some, ◌⊎◌, Error, ◌≡◌, refl, Bool, if◌then◌else◌, List, [], ◌∷◌, map, Text,
  codes, text_eq, true, false, none, ok, err, bad_type, unknown_command,
}
use slimhub_v.Prelude.Json.{
  is_encodable_json, Json, null, string, object, Fields, nothing, field, get_field,
}
use slimhub_v.Prelude.Dict.{NodupKeys, Dict, lookup}
use slimhub_v.Config.{DeviceConfig, list_all}
use slimhub_v.Daemon.{SlimHubDaemon}
use slimhub_v.Daemon.Frames.{IsSound}
use slimhub_v.Daemon.Report.{Device, absent_device, devices_payload}
use slimhub_v.Daemon.Report.Devices.{entry_at, last_session, last_config, devices_payload_lem}
use slimhub_v.Daemon.Arguments.{Runtime}
use slimhub_v.Daemon.Dispatch.{
  is_encodable_request, estimate, device_list, Server, perform, dispatch, handle_client,
}
use slimhub_v.Daemon.Dispatch.Answers.{handle_client-err}
use slimhub_v.Events.{CommandEvent}
use slimhub_v.Daemon.{handle_frame}
use slimhub_v.Daemon.Reach.{Reaches, here, after, client, Reaches-IsSound}
use slimhub_v.Daemon.Scan.{start_all}
use slimhub_v.Daemon.Scan.Found.{IsScanned, start_all-IsScanned}
use slimhub_v.Cli.{
  Namespace, default_options, list_devices, unitspace_status, call_unitspace, is_true, request_of,
  body_of, has_action, is_run_command, Hub,
}
use slimhub_v.Daemon.Socket.{read_line, served, closed}
use slimhub_v.Daemon.Begin.{Parts, start_parts, begin, waits, raises, begin_lem}
use slimhub_v.Protocol.Mac.{normalize_mac}
use slimhub_v.Logger.Queue.{stopped}
use slimhub_v.Ble.Registry.{get}
use slimhub_v.Cli.Devices.{table_of, print_devices-device_list}
use slimhub_v.Cli.Print.{printed_all, print_devices}
use slimhub_v.Daemon.Response.{reply_json, response_of}
use slimhub_v.Tests.Store.{desk, desk_typed_normal, at_desk, one_session, one_file}
use slimhub_v.Tests.Files.{no_data, one_file-IsStored}
use slimhub_v.Tests.Hub.{idle, idle-IsSound, serving, serving-IsSound}
use slimhub_v.Tests.Wire.{
  node, node_mac, node_normal, alert_bytes, alert_frame, alert_read, bytes_below,
}

-- A runtime that reads the same request from every line.
abbrev reads : Json → Runtime
reads j = record {
  shown = λ v. [];
  read_int = λ v. err bad_type;
  dumps = λ v. codes "{}";
  loads = λ line. ok j;
  own_mac = desk;
  error_text = λ e. [];
  line_text = λ l. [];
}

abbrev answers : Json → Bool
answers (object fields) = is_true (get_field (codes "ok") fields)
answers _ = false

-- A runtime that writes requests and responses as one letter each, and reads them as the given ones.
abbrev talks : Json → Fields → Runtime
talks request answer = record {
  shown = λ v. [];
  read_int = λ v. err bad_type;
  dumps = λ v. if answers v then codes "r" else codes "q";
  loads = λ line. ok (if text_eq line (codes "r") then object answer else request);
  own_mac = desk;
  error_text = λ e. [];
  line_text = λ l. [];
}

abbrev at_work : Server
at_work = record { daemon = serving; hub_file = none; dir = no_data; stop_event = false }

abbrev stop_request : Json
stop_request = object (field (codes "command") (string (codes "stop")) nothing)

abbrev bad_request : Json
bad_request = object (field (codes "command") (string (codes "jump")) nothing)

-- A server that was told to stop.
abbrev told : Server
told = (handle_client (reads stop_request) 5 [] at_work).1

told-Reaches : Reaches (reads stop_request) at_work told
unfolding is_encodable_json is_encodable
told-Reaches = after at_work told here (client 5 [] at_work refl)

Reaches-IsSound_example :
    IsSound told.daemon
    × (out : List CommandEvent) × (d : SlimHubDaemon) × (handle_frame 6 node alert_frame told.daemon
        ≡ ok (out, d))
Reaches-IsSound_example =
    Reaches-IsSound (reads stop_request) at_work told 6 node node_mac alert_bytes alert_frame
      serving-IsSound told-Reaches bytes_below alert_read node_normal

bad_refused : (handle_client (reads bad_request) 5 [] at_work).0 ≡ err unknown_command
unfolding handle_client read_line dispatch perform get_field text_eq
bad_refused = refl

bad_encodable : is_encodable_request (ok bad_request) ≡ true
unfolding is_encodable_json is_encodable
bad_encodable = refl

handle_client-err_example : (handle_client (reads bad_request) 5 [] at_work).1 ≡ at_work
handle_client-err_example =
    handle_client-err (reads bad_request) 5 [] at_work unknown_command serving-IsSound bad_encodable
      bad_refused

abbrev listening_hub : Hub
listening_hub = record {
  paths = record { base_dir = [] };
  directories = [];
  has_log = false;
  socket = served;
  server = at_work;
}

-- `slimhub-v2 devices`
abbrev devices_args : Namespace
devices_args = record {
  run_flag = false;
  legacy_config = none;
  legacy_service = none;
  legacy_feature = none;
  apply_flag = false;
  list_flag = false;
  quit_flag = false;
  hubconfig = none;
  legacy_reset = none;
  legacy_model = none;
  legacy_file = none;
  options = default_options;
  subcommand = list_devices;
}

devices_acts : has_action devices_args ≡ true
unfolding has_action
devices_acts = refl

devices_no_run : is_run_command devices_args ≡ false
unfolding is_run_command
devices_no_run = refl

-- `slimhub-v2 unitspace status`
abbrev status_args : Namespace
status_args = record devices_args { subcommand = unitspace_status }

abbrev status_talk : Runtime
status_talk =
    talks (body_of (request_of call_unitspace))
      (response_of (reads null) (ok (estimate serving.estimator)))

print_devices-device_list_example :
    print_devices (reads null) (reply_json (λ l. []) (device_list (absent_device desk ∷ [])))
    ≡ printed_all (table_of (absent_device desk ∷ []))
print_devices-device_list_example = print_devices-device_list (reads null) (absent_device desk ∷ [])

abbrev known : SlimHubDaemon
known = record serving { files = one_file }

devices_payload_lem_example :
    (configs : List DeviceConfig) × (devices : Dict Device) × (list_all one_file ≡ ok configs)
    × (devices_payload known ≡ ok (map (λ (entry : Text × Device). entry.1) devices))
    × NodupKeys devices
    × ((k : Text)
        → lookup k devices
          ≡ entry_at k
              (last_session one_session k one_session.registry.sessions none)
              (last_config one_session.registry k configs none))
devices_payload_lem_example = devices_payload_lem known one_file-IsStored

start_all-IsScanned_example : IsScanned (at_desk ∷ []) idle (start_all 5 (at_desk ∷ []) idle)
start_all-IsScanned_example =
    start_all-IsScanned 5 (at_desk ∷ []) idle idle-IsSound ((desk, desk_typed_normal), tt)

-- `run` is about to start, on a path with no socket.
abbrev unstarted : Parts
unstarted = record { tasks = []; logger = stopped no_data; hub_file = none; socket = closed }

begin_lem_example :
    ((n : Text) × (d' : SlimHubDaemon) × (session : ℕ) × (normalize_mac (120 ∷ codes "yz") ≡ ok n)
      × (begin 5 desk (some (120 ∷ codes "yz")) true unstarted serving
          ≡ waits true (start_parts desk unstarted) d')
      × IsSound d'
      × (get d'.central.registry n ≡ ok (some session))
      × (d'.log ≡ serving.log)
      × (d'.estimator ≡ serving.estimator))
    ⊎ ((e : Error) × (parts : Parts) × (normalize_mac (120 ∷ codes "yz") ≡ err e)
        × (begin 5 desk (some (120 ∷ codes "yz")) true unstarted serving ≡ raises e parts serving)
        × (parts.socket ≡ served)
        × (parts.logger.running ≡ true))
begin_lem_example = begin_lem 5 desk 120 (codes "yz") true unstarted serving serving-IsSound
