-- ===== src/Ble/Session.antt =====
-- The data of `DeviceSession` of slimhub/ble/device_session.py, and the methods that change it outside
-- its task: `__init__`, `update_target`, `send_command`, `status`. A target is a BLE device or an
-- address; an address has no name. `time.time()` is an argument.
pub mod Updates
use slimhub_v.Prelude.{
  ℕ, Bool, true, false, List, [], ◌∷◌, ◌++◌, length, Text, Option, none, Result, ok, ◌>>=◌,
}
use slimhub_v.Protocol.Mac.{normalize_mac}
use slimhub_v.Events.{CommandEvent, text_or}

pub record Target : Type 0 where
  pub address : Text
  pub name : Text

pub record DeviceSession : Type 0 where
  pub target : Target
  pub address : Text
  pub name : Text
  pub connected : Bool
  pub last_seen : ℕ
  pub last_error : Option Text
  pub waiting_for_advertisement : Bool
  pub target_updated : Bool
  pub started : Bool
  pub command_queue : List CommandEvent

unfoldable pub new_session : Target → Result DeviceSession
new_session target = do
  normalized ← normalize_mac target.address
  ok (record {
    target = target;
    address = normalized;
    name = target.name;
    connected = false;
    last_seen = 0;
    last_error = none;
    waiting_for_advertisement = false;
    target_updated = true;
    started = false;
    command_queue = [];
  })

-- What `update_target` makes of a session, once the address is normalized.
abbrev pub retargeted : ℕ → Target → Text → DeviceSession → DeviceSession
retargeted now target normalized s = record s {
  target = target;
  address = normalized;
  name = text_or target.name s.name;
  last_seen = now;
  waiting_for_advertisement = false;
  target_updated = true;
}

unfoldable pub update_target : ℕ → Target → DeviceSession → Result DeviceSession
update_target now target s = do
  normalized ← normalize_mac target.address
  ok (retargeted now target normalized s)

-- The task is created once; that it ends, and is created again, is in Ble/Task.
unfoldable pub start : DeviceSession → DeviceSession
start s = record s { started = true }

unfoldable pub enqueue : CommandEvent → DeviceSession → DeviceSession
enqueue command s = record s { command_queue = s.command_queue ++ command ∷ [] }

pub record Status : Type 0 where
  pub address : Text
  pub name : Text
  pub connected : Bool
  pub last_seen : ℕ
  pub last_error : Option Text
  pub waiting_for_advertisement : Bool
  pub queued_commands : ℕ

unfoldable pub status : DeviceSession → Status
status s = record {
  address = s.address;
  name = s.name;
  connected = s.connected;
  last_seen = s.last_seen;
  last_error = s.last_error;
  waiting_for_advertisement = s.waiting_for_advertisement;
  queued_commands = length s.command_queue;
}
