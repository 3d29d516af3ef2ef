-- ===== src/Tests/Presence.antt =====
-- Someone goes from the door to a node, at concrete inputs.
use slimhub_v.Unitspace.Occupancy.{NoExit, Tracks, after_commands, remembers}
use slimhub_v.Daemon.History.{raw_events, Reaches-Tracks}
use slimhub_v.Daemon.Reach.{Reaches, here, after, frame}
use slimhub_v.Daemon.Arguments.{Runtime}
use slimhub_v.Daemon.Dispatch.{Server, with_daemon}
use slimhub_v.Prelude.{
  ◌++◌, All, err, bad_type, ◌≡◌, refl, join, List, [], ◌∷◌, arith, replicate, All, IsByte, Text,
  Bytes, codes, text_eq, get_elem?, some, none, ok, false,
}
use mathlib.Core.Option.{some-injective}
use slimhub_v.Prelude.Dict.{lookup}
use slimhub_v.Protocol.Mac.{format_mac}
use slimhub_v.Protocol.Command.{strong_enter, strong_exit}
use slimhub_v.Protocol.Rawdata.{parse_rawdata}
use slimhub_v.Protocol.Frame.{
  rawdata, rawdata, ParsedFrame, from_le, rstrip, ljust, parse_packet, parse_frame,
}
use slimhub_v.Protocol.Frame.Layout.{layout}
use slimhub_v.Events.{CommandEvent}
use slimhub_v.Unitspace.{handle_all, UnitspaceStatus, remember, command_event, handle}
use slimhub_v.Unitspace.Commands.{IsTracking}
use slimhub_v.Config.{DeviceConfig, load}
use slimhub_v.Ble.Registry.{DeviceRegistry, get, find_session, register_alias}
use slimhub_v.Ble.Registry.Routing.{IsRouted}
use slimhub_v.Ble.Central.{BleCentral}
use slimhub_v.Daemon.{Logged, SlimHubDaemon, raw_event, handle_frame}
use slimhub_v.Daemon.Frames.{Handled, IsLogged, of_raw, handle_frame-Handled, IsSound}
use slimhub_v.Daemon.Delivery.{delivered, with_commands, AreQueued}
use slimhub_v.Daemon.Presence.{registered, handle_frame-delivers}
use slimhub_v.Daemon.Moves.{moved_commands, enter_moves}
use slimhub_v.Tests.Store.{
  desk, desk_typed, desk_typed_normal, door, door_normal, desk_session, no_files-IsConsistent,
}
use slimhub_v.Tests.Wire.{pir}

abbrev lamp : Text
lamp = codes "C0:FF:EE:00:00:03"

abbrev lamp_bytes : Bytes
lamp_bytes = 0xc0 ∷ 0xff ∷ 0xee ∷ 0 ∷ 0 ∷ 3 ∷ []

abbrev pir_bytes : Bytes
pir_bytes = 1 ∷ 1 ∷ replicate 31 0

abbrev enter_frame : ParsedFrame
enter_frame = record {
  mac = lamp;
  mac_bytes = lamp_bytes;
  packet_type = codes "RAWDATA";
  packet_length = 33;
  payload = pir_bytes;
  parsed = rawdata pir;
}

abbrev enter_bytes : Bytes
enter_bytes = layout lamp_bytes (ljust 8 (codes "RAWDATA")) (pir_bytes)

enter_read : parse_frame enter_bytes ≡ ok enter_frame
unfolding parse_frame parse_packet parse_rawdata from_le rstrip format_mac join text_eq
enter_read = refl

enter_below : All IsByte enter_bytes
enter_below = omega arith

abbrev two_sessions : BleCentral
two_sessions = record {
  registry = record { sessions = (desk, 0) ∷ (door, 1) ∷ []; aliases = [] };
  heap = desk_session ∷ record desk_session { address = door } ∷ [];
}

abbrev at_the_door : SlimHubDaemon
at_the_door = record {
  files = [];
  central = two_sessions;
  estimator = record {
    last_address = some door;
    last_location = some (codes "hall");
    last_timestamp = 3;
  };
  log = [];
}

two_sessions-IsRouted : IsRouted two_sessions.registry
unfolding lookup
two_sessions-IsRouted alias canonical h = cc

at_the_door-IsTracking : IsTracking at_the_door.estimator
at_the_door-IsTracking a e = rw (← some-injective door a e) door_normal

at_the_door-IsSound : IsSound at_the_door
at_the_door-IsSound = record {
  consistent = no_files-IsConsistent;
  tracking = at_the_door-IsTracking;
  routed = two_sessions-IsRouted;
}

desk_there : lookup desk two_sessions.registry.sessions ≡ some 0
unfolding lookup text_eq
desk_there = refl

node_absent : lookup lamp two_sessions.registry.sessions ≡ none
unfolding lookup text_eq
node_absent = refl

door_got : get two_sessions.registry door ≡ ok (some 1)
unfolding get find_session lookup text_eq
door_got = rw door_normal refl

not_the_door : text_eq lamp door ≡ false
unfolding text_eq
not_the_door = refl

handle_frame-delivers_example :
    (config : DeviceConfig) × (registry : DeviceRegistry) × (commands : List CommandEvent)
    × (status : UnitspaceStatus) × (d' : SlimHubDaemon) × (load [] lamp ≡ ok config)
    × (register_alias two_sessions.registry lamp desk_typed ≡ ok registry)
    × (handle at_the_door.estimator (raw_event 5 enter_frame pir config) ≡ ok (commands, status))
    × (handle_frame 5 desk_typed enter_frame at_the_door ≡ ok (delivered registry commands, d'))
    × (d'.estimator ≡ status)
    × AreQueued commands (registered registry at_the_door) d'.central
handle_frame-delivers_example =
    handle_frame-delivers 5 desk_typed desk enter_bytes enter_frame pir at_the_door
      at_the_door-IsSound enter_below enter_read refl desk_typed_normal

enter_moves_example :
    (config : DeviceConfig) × (d' : SlimHubDaemon) × (load [] lamp ≡ ok config)
    × (handle_frame 5 desk_typed enter_frame at_the_door
        ≡ ok (moved_commands enter_frame config door at_the_door.estimator, d'))
    × (d'.estimator ≡ remember lamp config.location 5 at_the_door.estimator)
    × (get_elem? d'.central.heap 0
        ≡ with_commands
            (command_event lamp strong_enter config.location ∷ [])
            (get_elem? two_sessions.heap 0))
    × (get_elem? d'.central.heap 1
        ≡ with_commands
            (command_event door strong_exit (codes "hall") ∷ [])
            (get_elem? two_sessions.heap 1))
    × (get_elem? d'.central.heap 2 ≡ none)
enter_moves_example =
    enter_moves 5 desk_typed desk door enter_bytes enter_frame pir 0 1 2 at_the_door
      at_the_door-IsSound enter_below enter_read refl refl refl desk_typed_normal desk_there
      node_absent refl not_the_door door_got (omega arith) (omega arith) (omega arith)

-- A server whose daemon gets the frame.
abbrev at_the_desk : Server
at_the_desk = record {
  daemon = at_the_door;
  hub_file = none;
  dir = record { files = []; writes = 0 };
  stop_event = false;
}

entered :
    (sent : List CommandEvent) × (d : SlimHubDaemon) × (handle_frame 5 desk_typed enter_frame
        at_the_door
      ≡ ok (sent, d))
    × Handled 5 enter_frame (rawdata pir) at_the_door d
entered =
    handle_frame-Handled 5 desk_typed desk enter_bytes enter_frame at_the_door at_the_door-IsSound
      enter_below enter_read desk_typed_normal

abbrev after_enter : Server
after_enter = with_daemon at_the_desk entered.1

abbrev silent_runtime : Runtime
silent_runtime = record {
  shown = λ v. [];
  read_int = λ v. err bad_type;
  dumps = λ v. [];
  loads = λ line. err bad_type;
  own_mac = desk;
  error_text = λ e. [];
  line_text = λ l. [];
}

entered-Reaches : Reaches silent_runtime at_the_desk after_enter
entered-Reaches = after at_the_desk after_enter here (
    frame 5 desk_typed enter_bytes enter_frame entered.0 entered.1 at_the_desk enter_below
      enter_read entered.2)

no_exit :
    (entry : Logged)
    → IsLogged 5 enter_frame [] (rawdata pir) entry
    → All NoExit (raw_events (entry ∷ []))
unfolding raw_events
no_exit _ (of_raw packet config event e time (mac, payload, same) place) = (rw same (λ h. cc), tt)

entered_stays : All NoExit (raw_events after_enter.daemon.log)
entered_stays = rw entered.3.last (no_exit entered.3.entry entered.3.logged)

door_entered : Tracks (remembers (some door)) at_the_door.estimator
door_entered a = refl

Reaches-Tracks_example :
    (entries : List Logged) × (commands : List CommandEvent) × (after_enter.daemon.log
      ≡ [] ++ entries)
    × (handle_all at_the_door.estimator (raw_events entries)
        ≡ ok (commands, after_enter.daemon.estimator))
    × Tracks (after_commands commands (remembers (some door))) after_enter.daemon.estimator
Reaches-Tracks_example =
    Reaches-Tracks silent_runtime at_the_desk after_enter (remembers (some door))
      at_the_door-IsSound entered-Reaches door_entered entered_stays
