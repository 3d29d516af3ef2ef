-- ===== src/Daemon/Dispatch.antt =====
-- The requests that slimhub/daemon.py answers on its socket: `dispatch`, `_handle_client` and
-- `request_stop`. An exception is a result; the state beside it is what the code has left by then.
pub mod Keeps
pub mod Answers
use slimhub_v.Prelude.{
  ℕ, Bool, true, false, List, [], ◌∷◌, if◌then◌else◌, Text, Bytes, codes, text_eq, Option, none,
  some, Error, Result, ok, err, ◌>>=◌, bad_args, missing_key, bad_type, unknown_command,
}
use slimhub_v.Prelude.Int.{ℤ, pos}
use slimhub_v.Prelude.Json.{
  Json, null, boolean, number, real, string, array, object, Fields, nothing, get_field, truthy,
  is_encodable_json,
}
use slimhub_v.Protocol.Mac.{normalize_mac}
use slimhub_v.Daemon.Socket.{read_line}
use slimhub_v.Unitspace.{UnitspaceStatus}
use slimhub_v.Config.{DeviceConfig, Files, set_field}
use slimhub_v.Config.Hub.{HubConfig, HubFile, hub_set_field}
use slimhub_v.Ble.Session.{Status}
use slimhub_v.Ble.Central.{BleCentral, ensure_address}
use slimhub_v.Logger.Store.{Line, DataDir}
use slimhub_v.Daemon.{SlimHubDaemon, kept_central, connect_address}
use slimhub_v.Daemon.Arguments.{
  Runtime, as_text, str_or_none, str_or_empty, optional_str, str_if_true, int_or, address_of,
  setting_of, change_of, args_of,
}
use slimhub_v.Daemon.Report.{Device, devices_payload, tail_raw}
use slimhub_v.Daemon.Requests.{
  Sending, command_device, apply_config, service_command, unsupported_device_command,
}

pub record Server : Type 0 where
  pub daemon : SlimHubDaemon
  pub hub_file : Option HubFile
  pub dir : DataDir
  pub stop_event : Bool

-- What `_ok` is given.
pub data Reply : Type 0 where
  stopping : Reply
  device_list : List Device → Reply
  session_status : Option Status → Reply
  sending : Sending → Reply
  device_config : DeviceConfig → Reply
  hub_config : HubConfig → Reply
  message : Text → Reply
  estimate : UnitspaceStatus → Reply
  raw_lines : List Line → Reply

unfoldable pub request_stop : Server → Server
request_stop s = record s { stop_event = true }

-- An answer that leaves the state as it is.
abbrev pub answer {ℓ} : {A : Type ℓ} → (A → Reply) → Server → Result A → Result Reply × Server
answer reply s (err e) = (err e, s)
answer reply s (ok a) = (ok (reply a), s)

-- An answer with a new part of the state; the other state is what an exception leaves.
abbrev pub answer_with {ℓ κ} :
    {A : Type ℓ} {B : Type κ}
    → (A → Reply)
    → (B → Server)
    → Server
    → Result (A × B)
    → Result Reply × Server
answer_with reply put s (err e) = (err e, s)
answer_with reply put s (ok (a, b)) = (ok (reply a), put b)

abbrev pub with_daemon : Server → SlimHubDaemon → Server
with_daemon s d = record s { daemon = d }

abbrev pub with_files : Server → Files → Server
with_files s files = record s { daemon = record s.daemon { files = files } }

abbrev pub with_hub_file : Server → Option HubFile → Server
with_hub_file s file = record s { hub_file = file }

-- What `connect_address` leaves when it raises: the session stays if it was ensured.
unfoldable pub left_by_connect : ℕ → Text → SlimHubDaemon → SlimHubDaemon
left_by_connect now address d =
    kept_central d (do normalized ← normalize_mac address; ensure_address now normalized d.central)

unfoldable pub connect : ℕ → Text → Server → Result Reply × Server
connect now address s =
    answer_with session_status (with_daemon s)
      (with_daemon s (left_by_connect now address s.daemon)) (connect_address now address s.daemon)

unfoldable pub config_set : Text → Text → Text → Server → Result Reply × Server
config_set address field value s =
    answer_with device_config (with_files s) s (set_field s.daemon.files address field value)

abbrev pub config_applied : Result SlimHubDaemon → Result (Text × SlimHubDaemon)
config_applied (err e) = err e
config_applied (ok d) = ok (codes "Config data applied", d)

unfoldable pub config_apply : Server → Result Reply × Server
config_apply s = answer_with message (with_daemon s) s (config_applied (apply_config s.daemon))

unfoldable pub hub_config_set : Text → Text → Text → Server → Result Reply × Server
hub_config_set own_mac field value s =
    answer_with hub_config (with_hub_file s) s (hub_set_field own_mac s.hub_file field value)

unfoldable pub send : Option Text → Option Text → Server → Result Reply × Server
send address command s =
    answer_with sending (with_daemon s) s (command_device address command s.daemon)

unfoldable pub unsupported : Text → Text → Text → Server → Result Reply × Server
unsupported address command_name detail s =
    answer message s (unsupported_device_command address command_name detail s.daemon)

unfoldable pub tail : Option Text → Server → ℤ → Result Reply × Server
tail address s n = answer raw_lines s (tail_raw address n s.dir)

-- A branch whose arguments may be missing.
abbrev pub with_args {ℓ} :
    {A : Type ℓ} → Server → Result A → (A → Result Reply × Server) → Result Reply × Server
with_args s (err e) next = (err e, s)
with_args s (ok a) next = next a

-- `command == name`
abbrev pub is_command : Option Json → Text → Bool
is_command (some (string command)) name = text_eq command name
is_command _ name = false

-- The branches on the command.
unfoldable pub perform : Runtime → ℕ → Option Json → Fields → Server → Result Reply × Server
unfolding get_field
perform runtime now command args s =
    let arg = λ (k : Text). get_field k args in
    let is = is_command command in
    if is (codes "stop")
    then (ok stopping, request_stop s)
    else if is (codes "devices")
    then answer device_list s (devices_payload s.daemon)
    else if is (codes "connect")
    then with_args s (address_of runtime args) (λ address. connect now address s)
    else if is (codes "command.send")
    then send (as_text (arg (codes "address"))) (as_text (arg (codes "command"))) s
    else if is (codes "config.set")
    then with_args s (change_of runtime args) (λ (a, (f, v)). config_set a f v s)
    else if is (codes "config.apply")
    then config_apply s
    else if is (codes "hub.config.set")
    then with_args s (setting_of runtime args) (λ (f, v). hub_config_set runtime.own_mac f v s)
    else if is (codes "service")
    then answer message s (
        service_command (str_or_none runtime (arg (codes "address")))
          (str_or_none runtime (arg (codes "action"))) (str_or_none runtime (arg (codes "service")))
          (optional_str runtime (arg (codes "characteristic"))) s.daemon)
    else if is (codes "reset")
    then unsupported (str_or_none runtime (arg (codes "address"))) (codes "Reset") [] s
    else if is (codes "model")
    then unsupported (str_or_none runtime (arg (codes "address"))) (codes "Model")
        (str_or_empty runtime (arg (codes "model_command"))) s
    else if is (codes "feature")
    then unsupported (str_or_none runtime (arg (codes "address"))) (codes "Feature collection")
        (str_or_empty runtime (arg (codes "feature_command"))) s
    else if is (codes "file")
    then unsupported (str_or_none runtime (arg (codes "address"))) (codes "File transfer")
        (str_or_empty runtime (arg (codes "file_path"))) s
    else if is (codes "unitspace.status")
    then (ok (estimate s.daemon.estimator), s)
    else if is (codes "raw.tail")
    then with_args s (int_or runtime (pos 20) (arg (codes "lines")))
        (tail (str_if_true runtime (arg (codes "address"))) s)
    else (err unknown_command, s)

unfoldable pub dispatch : Runtime → ℕ → Json → Server → Result Reply × Server
unfolding perform get_field
dispatch runtime now (object request) s =
    with_args s (args_of (get_field (codes "args") request))
      (λ args. perform runtime now (get_field (codes "command") request) args s)
dispatch runtime now _ s = (err bad_type, s)

-- One line from a client, and the response to it.
unfoldable pub handle_client : Runtime → ℕ → Bytes → Server → Result Reply × Server
unfolding dispatch
handle_client runtime now line s =
    with_args s (do text ← read_line line; runtime.loads text)
      (λ request. dispatch runtime now request s)

-- Whether every text in the request of a line can be encoded, and so be written to a file.
abbrev pub is_encodable_request : Result Json → Bool
is_encodable_request (err e) = true
is_encodable_request (ok request) = is_encodable_json request

-- The lines of clients, one after the other.
unfoldable pub handle_clients : Runtime → List (ℕ × Bytes) → Server → Server
handle_clients runtime [] s = s
handle_clients runtime ((now, line) ∷ lines) s =
    handle_clients runtime lines (handle_client runtime now line s).1
