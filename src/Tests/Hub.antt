-- ===== src/Tests/Hub.antt =====
-- The daemon, the command worker and the hub's own config at concrete inputs.
use slimhub_v.Prelude.{
  Option, ℕ, ◌≡◌, refl, arith, List, [], get_elem?, text_eq, codes, none, some, ok, map, Text,
  Bytes, Error, if◌then◌else◌, ◌==◌, ◌∷◌,
}
use slimhub_v.Protocol.Command.{validate_command, strong_enter}
use slimhub_v.Events.{CommandEvent}
use slimhub_v.Unitspace.{initial}
use slimhub_v.Unitspace.Commands.{IsTracking-initial}
use slimhub_v.Config.{DeviceConfig, load}
use slimhub_v.Ble.Registry.{empty_registry}
use slimhub_v.Ble.Registry.Routing.{IsRouted-empty, add-IsRouted}
use slimhub_v.Ble.Session.{status}
use slimhub_v.Ble.Central.{empty_central}
use slimhub_v.Ble.Worker.{command_worker}
use slimhub_v.Ble.Worker.Laws.{framed, frames_of, command_worker_lem}
use slimhub_v.Unitspace.{command_event}
use slimhub_v.Daemon.{SlimHubDaemon, handle_frame}
use slimhub_v.Daemon.Requests.{command_device}
use slimhub_v.Daemon.Frames.{IsSound, Handled, handle_frame-Handled}
use slimhub_v.Daemon.Sessions.{queued, command_device_lem}
use slimhub_v.Tests.Wire.{
  node, node_mac, node_normal, alert_bytes, alert_frame, alert_read, bytes_below,
}
use slimhub_v.Tests.Store.{
  desk, desk_typed, desk_typed_normal, desk_session, desk_got, one_registered, one_session, added,
  no_files-IsConsistent,
}

abbrev pub idle : SlimHubDaemon
idle = record { files = []; central = empty_central; estimator = initial; log = [] }

pub idle-IsSound : IsSound idle
idle-IsSound = record {
  consistent = no_files-IsConsistent;
  tracking = IsTracking-initial;
  routed = IsRouted-empty;
}

handle_frame-Handled_example :
    (out : List CommandEvent) × (d' : SlimHubDaemon) × (handle_frame 5 node alert_frame idle
      ≡ ok (out, d'))
    × Handled 5 alert_frame alert_frame.parsed idle d'
handle_frame-Handled_example =
    handle_frame-Handled 5 node node_mac alert_bytes alert_frame idle idle-IsSound bytes_below
      alert_read node_normal

abbrev pub serving : SlimHubDaemon
serving = record { files = []; central = one_session; estimator = initial; log = [] }

pub serving-IsSound : IsSound serving
serving-IsSound = record {
  consistent = no_files-IsConsistent;
  tracking = IsTracking-initial;
  routed = add-IsRouted empty_registry one_registered 0 desk_typed IsRouted-empty added;
}

enter_accepted : validate_command (codes "enter") ≡ ok strong_enter
unfolding validate_command text_eq
enter_accepted = refl

command_device_lem_example :
    (config : DeviceConfig) × (d' : SlimHubDaemon) × (load [] desk ≡ ok config)
    × (command_device (some desk_typed) (some (codes "enter")) serving
        ≡ ok (
          record {
            address = desk;
            command = strong_enter;
            session = some (status (queued desk strong_enter config desk_session));
          },
          d',
        ))
    × (get_elem? d'.central.heap 0 ≡ some (queued desk strong_enter config desk_session))
    × (get_elem? d'.central.heap 1 ≡ none)
    × IsSound d'
command_device_lem_example =
    command_device_lem 99 (codes "0-ff-ee-00-00-01") (codes "enter") desk strong_enter 0 1
      desk_session serving serving-IsSound desk_typed_normal enter_accepted desk_got refl
      (omega arith)

-- The second call of the client fails.
abbrev write_second_fails : ℕ → Bytes → Option Text
write_second_fails call frame = if call == 1 then some (codes "not connected") else none

abbrev no_message : Error → Text
no_message e = []

-- One command that is none, between two that are.
abbrev three_commands : List CommandEvent
three_commands =
    command_event desk strong_enter (codes "office")
    ∷ command_event desk (codes "jump") (codes "office")
    ∷ command_event desk (codes "exit") (codes "office")
    ∷ []

command_worker_lem_example :
    (command_worker write_second_fails no_message 0 none three_commands).0
    ≡ frames_of (map framed three_commands)
command_worker_lem_example = command_worker_lem write_second_fails no_message 0 none three_commands
