-- ===== src/Cli.antt =====
-- slimhub/cli/app.py, and slimhub/cli/client.py with slimhub/cli/server.py: what a command line asks
-- the daemon, and what is printed. The arguments are those that argparse gives; a subcommand comes
-- with the arguments of its own parser. Printing and logging stand for their data.
pub mod Answers
pub mod Devices
pub mod Print
pub mod Ending
pub mod Run
pub mod Shapes
use slimhub_v.Paths
use slimhub_v.Logger.Store.{FilePath}
use slimhub_v.Paths.{AppPaths}
use slimhub_v.Prelude.{
  List, ℕ, Bool, true, false, ◌||◌, if◌then◌else◌, Text, Bytes, codes, Option, none, some, Error,
  Result, ok, err, ◌>>=◌, [], ◌∷◌, unhandled_command, failed_request, not_running, empty_response,
  bad_response,
}
use slimhub_v.Prelude.Int.{ℤ}
use slimhub_v.Prelude.Json.{
  Json, null, number, string, object, Fields, nothing, field, get_field, truthy, text_or_null,
}
use slimhub_v.Events.{text_or}
use slimhub_v.Config.{default_device_type}
use slimhub_v.Daemon.Arguments.{Runtime, str}
use slimhub_v.Daemon.Dispatch.{Server}
use slimhub_v.Daemon.Response.{respond}
use slimhub_v.Daemon.Socket.{read_line, Socket, open_connection}

pub data Subcommand : Type 0 where
  no_subcommand run_daemon stop_daemon list_devices : Subcommand
  connect_to : Text → Subcommand
  command_send : Text → Text → Subcommand
  config_set_field : Text → Text → Text → Subcommand
  raw_tail : Option Text → ℤ → Subcommand
  unitspace_status : Subcommand

-- What the daemon is started with: `--address`, `--name`, `--no-scan` and the times in microseconds.
pub record RunOptions : Type 0 where
  pub address : Option Text
  pub name : Text
  pub no_scan : Bool
  pub scan_timeout : ℕ
  pub scan_interval : ℕ
  pub reconnect_delay : ℕ

-- The values of options that are not given.
abbrev pub default_options : RunOptions
default_options = record {
  address = none;
  name = default_device_type;
  no_scan = false;
  scan_timeout = 5_000_000;
  scan_interval = 10_000_000;
  reconnect_delay = 3_000_000;
}

-- The arguments as argparse leaves them: those that choose what is done, and the daemon's options.
pub record Namespace : Type 0 where
  pub run_flag : Bool
  pub legacy_config : Option (Text × (Text × Text))
  pub legacy_service : Option (Text × (Text × (Text × Text)))
  pub legacy_feature : Option (Text × Text)
  pub apply_flag : Bool
  pub list_flag : Bool
  pub quit_flag : Bool
  pub hubconfig : Option (Text × Text)
  pub legacy_reset : Option Text
  pub legacy_model : Option (Text × Text)
  pub legacy_file : Option (Text × (Text × Text))
  pub options : RunOptions
  pub subcommand : Subcommand

-- A list of arguments is not empty, so it counts as true.
abbrev pub is_given {ℓ} : {A : Type ℓ} → Option A → Bool
is_given none = false
is_given (some a) = true

abbrev pub is_subcommand : Subcommand → Bool
is_subcommand no_subcommand = false
is_subcommand _ = true

abbrev is_run : Subcommand → Bool
is_run run_daemon = true
is_run _ = false

unfoldable pub has_action : Namespace → Bool
has_action args =
    args.run_flag
    || is_given args.legacy_config
    || is_given args.legacy_service
    || is_given args.legacy_feature
    || args.apply_flag
    || args.list_flag
    || args.quit_flag
    || is_given args.hubconfig
    || is_given args.legacy_reset
    || is_given args.legacy_model
    || is_given args.legacy_file
    || is_subcommand args.subcommand

unfoldable pub is_run_command : Namespace → Bool
is_run_command args = args.run_flag || is_run args.subcommand

abbrev is_stop : Subcommand → Bool
is_stop stop_daemon = true
is_stop _ = false

abbrev pub is_devices : Subcommand → Bool
is_devices list_devices = true
is_devices _ = false

-- The calls of `send_request_sync` in `_send`, with what they take from the arguments.
pub data Call : Type 0 where
  call_stop call_devices call_apply call_unitspace : Call
  call_config : Text → Text → Text → Call
  call_service : Text → Text → Text → Text → Call
  call_reset call_connect : Text → Call
  call_model call_feature call_send : Text → Text → Call
  call_file : Text → Text → Text → Call
  call_tail : Option Text → ℤ → Call

-- The branches on the subcommand.
abbrev pub sub_call : Subcommand → Result Call
sub_call (connect_to address) = ok (call_connect address)
sub_call (command_send address command) = ok (call_send address command)
sub_call (config_set_field address name value) = ok (call_config address name value)
sub_call (raw_tail address lines) = ok (call_tail address lines)
sub_call unitspace_status = ok call_unitspace
sub_call _ = err unhandled_command

abbrev if_given {ℓ} : {A : Type ℓ} → (A → Call) → Option A → Result Call → Result Call
if_given call none rest = rest
if_given call (some a) rest = ok (call a)

-- The call that `_send` makes.
unfoldable pub chosen : Namespace → Result Call
chosen args =
    if args.quit_flag || is_stop args.subcommand
    then ok call_stop
    else if args.list_flag || is_devices args.subcommand
    then ok call_devices
    else if_given (λ (a, (f, v)). call_config a f v) args.legacy_config
        (if args.apply_flag
          then ok call_apply
          else if_given (λ (a, (x, (s, c))). call_service a x s c) args.legacy_service
              (if_given call_reset args.legacy_reset (
                if_given (λ (a, c). call_model a c) args.legacy_model
                  (if_given (λ (a, c). call_feature a c) args.legacy_feature
                    (if_given (λ (a, (p, s)). call_file a p s) args.legacy_file
                      (sub_call args.subcommand))))))

abbrev one : Text → Text → Fields
one k v = field k (string v) nothing

abbrev two : Text → Text → Text → Text → Fields
two j v k w = field j (string v) (one k w)

abbrev three : Text → Text → Text → Text → Text → Text → Fields
three i u j v k w = field i (string u) (two j v k w)

-- The command of a call and its arguments.
abbrev pub request_of : Call → Text × Fields
request_of call_stop = (codes "stop", nothing)
request_of call_devices = (codes "devices", nothing)
request_of call_apply = (codes "config.apply", nothing)
request_of call_unitspace = (codes "unitspace.status", nothing)
request_of (call_config address name value) =
    (codes "config.set", three (codes "address") address (codes "field") name (codes "value") value)
request_of (call_service address action service characteristic) = (
  codes "service",
  field (codes "address") (string address) (
      three (codes "action") action (codes "service") service (codes "characteristic")
        characteristic),
)
request_of (call_reset address) = (codes "reset", one (codes "address") address)
request_of (call_connect address) = (codes "connect", one (codes "address") address)
request_of (call_model address command) =
    (codes "model", two (codes "address") address (codes "model_command") command)
request_of (call_feature address command) =
    (codes "feature", two (codes "address") address (codes "feature_command") command)
request_of (call_send address command) =
    (codes "command.send", two (codes "address") address (codes "command") command)
request_of (call_file address file_path save_path) = (
  codes "file",
  three (codes "address") address (codes "file_path") file_path (codes "save_path") save_path,
)
request_of (call_tail address lines) = (
  codes "raw.tail",
  field (codes "address") (text_or_null address) (field (codes "lines") (number lines) nothing),
)

-- `{"command": command, "args": args or {}}`
abbrev pub body_of : Text × Fields → Json
body_of (command, args) =
    object (field (codes "command") (string command) (field (codes "args") (object args) nothing))

unfoldable pub encode_request : Runtime → Text × Fields → Bytes
encode_request runtime request = runtime.dumps (body_of request)

-- The server, and what there is at the path of its socket.
pub record Hub : Type 0 where
  pub paths : AppPaths
  pub directories : List FilePath
  pub has_log : Bool
  pub socket : Socket
  pub server : Server

-- `_setup_logging`: the directories and the log file are made.
abbrev pub setup_logging : Hub → Hub
setup_logging hub = record hub {
  directories = Paths.ensure hub.paths hub.directories;
  has_log = true;
}

-- `decode_response`, of the line that was read
abbrev as_response : Json → Result Fields
as_response (object fields) = ok fields
as_response _ = err bad_response

unfoldable pub decode_response : Runtime → Bytes → Result Fields
decode_response runtime [] = err empty_response
decode_response runtime (b ∷ line) = do response ← runtime.loads (b ∷ line); as_response response

-- A value that may be missing: its truth, and `None` for it.
abbrev pub is_true : Option Json → Bool
is_true none = false
is_true (some v) = truthy v

abbrev or_null : Option Json → Json
or_null none = null
or_null (some v) = v

abbrev failure_text : Runtime → Option Json → Text
failure_text runtime none = codes "daemon request failed"
failure_text runtime (some v) = if truthy v then str runtime v else codes "daemon request failed"

-- What `send_request` makes of a response.
unfoldable pub received : Runtime → Fields → Result Json
unfolding get_field
received runtime response =
    if is_true (get_field (codes "ok") response)
    then ok (or_null (get_field (codes "data") response))
    else err (failed_request (failure_text runtime (get_field (codes "error") response)))

abbrev pub with_server : Hub → Server → Hub
with_server hub s = record hub { server = s }

-- The exchange over a connection, if there is one.
abbrev exchange : Runtime → ℕ → Text × Fields → Hub → Result (Unit {0}) → Result Json × Hub
exchange runtime now request hub (err e) = (err e, hub)
exchange runtime now request hub (ok opened) =
    let (line, s) = respond runtime now (encode_request runtime request) hub.server in
    (
      (do
        read ← read_line line
        response ← decode_response runtime read
        received runtime response),
      with_server hub s,
    )

unfoldable pub send_request : Runtime → ℕ → Text × Fields → Hub → Result Json × Hub
unfolding encode_request respond decode_response received open_connection
send_request runtime now request hub = exchange runtime now request hub (open_connection hub.socket)

abbrev send_chosen : Runtime → ℕ → Hub → Result Call → Result Json × Hub
send_chosen runtime now hub (err e) = (err e, hub)
send_chosen runtime now hub (ok call) = send_request runtime now (request_of call) hub

-- `_send`
unfoldable pub send_args : Runtime → ℕ → Namespace → Hub → Result Json × Hub
unfolding chosen send_request
send_args runtime now args hub = send_chosen runtime now hub (chosen args)
