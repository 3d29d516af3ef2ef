-- ===== src/Daemon/Report.antt =====
-- What slimhub/daemon.py tells about its devices and its files: `_connected_session_count`,
-- `_devices_payload`, `_raw_files`, `_tail_raw`, and the lines of `_log_commands`.
pub mod Devices
pub mod Tail
use slimhub_v.Prelude.{
  ℕ, zero, suc, ◌+◌, ◌-◌, Bool, true, false, ◌&&◌, List, [], ◌∷◌, ◌++◌, map, length, filter, drop,
  leb, if◌then◌else◌, Text, codes, text_eq, Option, none, some, Result, ok, err, ◌>>=◌,
}
use slimhub_v.Prelude.Int.{ℤ, pos, negsuc}
use slimhub_v.Prelude.Dict.{Dict, lookup, insert}
use slimhub_v.Protocol.Mac.{normalize_mac, upper}
use slimhub_v.Events.{CommandEvent, text_or}
use slimhub_v.Config.{DeviceConfig, default_device_type, default_location, list_all}
use slimhub_v.Ble.Registry.{DeviceRegistry, resolve_address}
use slimhub_v.Ble.Session.{Status}
use slimhub_v.Ble.Central.{BleCentral, ListedStatus, list_status}
use slimhub_v.Logger.Store.{FilePath, Line, File, DataDir}
use slimhub_v.Daemon.{SlimHubDaemon}

unfoldable pub connected_session_count : BleCentral → ℕ
connected_session_count c =
    length (filter (λ (item : ListedStatus). item.status.connected) (list_status c))

-- An object of the list; a field that may be missing is an option.
pub record Device : Type 0 where
  pub address : Text
  pub name : Text
  pub connected : Bool
  pub last_seen : ℕ
  pub last_error : Option Text
  pub queued_commands : ℕ
  pub waiting_for_advertisement : Option Bool
  pub aliases : Option (List Text)
  pub type : Option Text
  pub packet_address : Option Text
  pub configured_name : Option Text
  pub location : Option Text

abbrev pub of_status : ListedStatus → Device
of_status item = record {
  address = item.status.address;
  name = item.status.name;
  connected = item.status.connected;
  last_seen = item.status.last_seen;
  last_error = item.status.last_error;
  queued_commands = item.status.queued_commands;
  waiting_for_advertisement = some item.status.waiting_for_advertisement;
  aliases = some item.aliases;
  type = none;
  packet_address = none;
  configured_name = none;
  location = none;
}

-- A configured device without a session.
abbrev pub absent_device : Text → Device
absent_device canonical = record {
  address = canonical;
  name = [];
  connected = false;
  last_seen = 0;
  last_error = none;
  queued_commands = 0;
  waiting_for_advertisement = none;
  aliases = none;
  type = some default_device_type;
  packet_address = none;
  configured_name = none;
  location = none;
}

-- The four assignments of a round.
abbrev pub configured : DeviceConfig → Device → Device
configured config device = record device {
  packet_address = some config.address;
  configured_name = some config.name;
  type = some config.type;
  location = some config.location;
}

abbrev pub device_or : Option Device → Text → Device
device_or none canonical = absent_device canonical
device_or (some device) canonical = device

-- `{item["address"]: item for item in …}`
unfoldable pub by_address : List ListedStatus → Dict Device → Dict Device
by_address [] devices = devices
by_address (item ∷ items) devices =
    by_address items (insert item.status.address (of_status item) devices)

-- The loop over the configs.
unfoldable pub put_configs : DeviceRegistry → List DeviceConfig → Dict Device → Result (Dict Device)
put_configs r [] devices = ok devices
put_configs r (config ∷ configs) devices = do
  canonical ← resolve_address r config.address
  put_configs r configs (
      insert canonical (configured config (device_or (lookup canonical devices) canonical)) devices)

unfoldable pub devices_payload : SlimHubDaemon → Result (List Device)
devices_payload d = do
  configs ← list_all d.files
  devices ← put_configs d.central.registry configs (by_address (list_status d.central) [])
  ok (map (λ (entry : Text × Device). entry.1) devices)

-- `text.endswith(suffix)`
abbrev pub ends_with : Text → Text → Bool
ends_with suffix text = text_eq (drop (length text - length suffix) text) suffix

-- The glob patterns "*/*/*/inference/rawdata/*.txt" and "*/*/{mac}/inference/rawdata/*.txt"
abbrev is_mac : Option Text → Text → Bool
is_mac none part = true
is_mac (some mac) part = text_eq part mac

abbrev pub matches : Option Text → FilePath → Bool
matches mac (location ∷ device_type ∷ part ∷ inference ∷ directory ∷ name ∷ []) =
    is_mac mac part
    && text_eq inference (codes "inference")
    && text_eq directory (codes "rawdata")
    && ends_with (codes ".txt") name
matches mac _ = false

unfoldable pub raw_files : Option Text → DataDir → Result (List File)
raw_files none dir = ok (filter (λ (f : File). matches none f.path) dir.files)
raw_files (some address) dir = do
  mac ← normalize_mac address
  ok (filter (λ (f : File). matches (some mac) f.path) dir.files)

-- `sorted(files, key=…mtime)[-1]`: of the latest files the last one. The number of a write stands for its
-- time, so no two files that were written have the same.
unfoldable pub latest : File → List File → File
latest f [] = f
latest f (g ∷ files) = latest (if leb f.mtime g.mtime then g else f) files

-- `lines[-n:]`: all lines for 0, and for a negative n the lines after the first ones
abbrev pub last_lines : ℤ → List Line → List Line
last_lines (pos zero) lines = lines
last_lines (pos (suc n)) lines = drop (length lines - suc n) lines
last_lines (negsuc n) lines = drop (suc n) lines

abbrev pub tail_of : ℤ → List File → List Line
tail_of n [] = []
tail_of n (f ∷ files) = last_lines n (latest f files).lines

unfoldable pub tail_raw : Option Text → ℤ → DataDir → Result (List Line)
unfolding latest
tail_raw address n dir = do files ← raw_files address dir; ok (tail_of n files)

-- The two locations that the loop of `_log_commands` looks out for.
pub record Moved : Type 0 where
  pub enter_location : Option Text
  pub exit_location : Option Text

abbrev pub noted : CommandEvent → Moved → Moved
noted command m =
    let location = text_or command.location default_location in
    if ends_with (codes "enter") command.command
    then record m { enter_location = some location }
    else if ends_with (codes "exit") command.command
    then record m { exit_location = some location }
    else m

abbrev pub moved_line : Option Text → Option Text → List Text
moved_line (some enter) (some exit) = (exit ++ (codes " >>> " ++ enter)) ∷ []
moved_line none exit = []
moved_line (some enter) none = []

unfoldable pub log_loop : List CommandEvent → Moved → List Text
log_loop [] m = moved_line m.enter_location m.exit_location
log_loop (command ∷ commands) m =
    (text_or command.location default_location ++ (codes " " ++ map upper command.command))
    ∷ log_loop commands (noted command m)

-- The lines of `_log_commands`. A location is not empty, so it counts as true.
unfoldable pub log_commands : List CommandEvent → List Text
unfolding log_loop
log_commands commands = log_loop commands (record { enter_location = none; exit_location = none })
