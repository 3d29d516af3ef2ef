-- ===== src/Tests/Store.antt =====
-- The config stores, the registry and the sessions at concrete inputs.
use slimhub_v.Prelude.{
  is_encodable, All, ◌≡◌, refl, ◌↔◌, Bytes, arith, ◌≢◌, sym, ◌∙◌, List, [], ◌∷◌, length, get_elem?,
  Text, codes, join, text_eq, true, false, none, some, ok,
}
use slimhub_v.Prelude.Dict.{lookup, insert}
use slimhub_v.Protocol.Mac.{normalize_mac, mac_to_bytes, pairs}
use slimhub_v.Protocol.Command.{strong_enter}
use slimhub_v.Events.{CommandEvent}
use slimhub_v.Unitspace.{command_event}
use slimhub_v.Config.{DeviceConfig, Files, asdict, load, is_some, ensure}
use slimhub_v.Logger.Store.{FilePath}
use slimhub_v.Paths.{AppPaths, hub_config_path, path_for, get_mac_address}
use slimhub_v.Paths.Laws.{number_of, path_for_iff, get_mac_address_lem}
use slimhub_v.Config.Shelf
use slimhub_v.Config.Shelf.{texts_of, Operation, loading, setting, ensuring, replay, IsFiled}
use slimhub_v.Config.Shelf.Replay.{IsFiled-empty, run-replay}
use slimhub_v.Config.Updates.{completed, IsConsistent, Leaves, ensure_lem}
use slimhub_v.Ble.Registry.{DeviceRegistry, empty_registry, add, find_session, get, register_alias}
use slimhub_v.Ble.Session.{Target, DeviceSession, new_session, start}
use slimhub_v.Ble.Central.{BleCentral, empty_central, ensure_target}
use slimhub_v.Ble.Central.Laws.{ensure_target_twice, ensure_target_alias}

-- Two nodes, in normal form and as they are typed.
abbrev pub desk : Text
desk = codes "C0:FF:EE:00:00:01"

abbrev pub desk_typed : Text
desk_typed = codes "c0-ff-ee-00-00-01"

abbrev pub door : Text
door = codes "C0:FF:EE:00:00:02"

pub desk_normal : normalize_mac desk ≡ ok desk
unfolding normalize_mac join pairs
desk_normal = refl

pub desk_typed_normal : normalize_mac desk_typed ≡ ok desk
unfolding normalize_mac join pairs
desk_typed_normal = refl

pub door_normal : normalize_mac door ≡ ok door
unfolding normalize_mac join pairs
door_normal = refl

abbrev pub office : DeviceConfig
office = record {
  address = desk;
  type = codes "DEAN_NODE_V2";
  name = [];
  location = codes "office";
}

abbrev pub one_file : Files
one_file = (desk, asdict office) ∷ []

pub no_files-IsConsistent : IsConsistent []
unfolding lookup
no_files-IsConsistent k f h = cc

abbrev Ensures : Files → Text → Text → Type 0
Ensures files device_type name =
    (c : DeviceConfig) × (files' : Files) × (load files desk_typed ≡ ok c)
    × (ensure files desk_typed device_type name
        ≡ ok (completed (is_some (lookup desk files)) device_type name c, files'))
    × Leaves files desk (completed (is_some (lookup desk files)) device_type name c) files'
    × (ensure files' desk_typed device_type name
        ≡ ok (completed (is_some (lookup desk files)) device_type name c, files'))

ensure_lem_example : Ensures [] (codes "DEAN") (codes "desk")
ensure_lem_example =
    ensure_lem [] desk_typed desk (codes "DEAN") (codes "desk") no_files-IsConsistent
      desk_typed_normal

abbrev pub at_desk : Target
at_desk = record { address = desk_typed; name = codes "DEAN" }

abbrev pub desk_session : DeviceSession
desk_session = record {
  target = at_desk;
  address = desk;
  name = codes "DEAN";
  connected = false;
  last_seen = 0;
  last_error = none;
  waiting_for_advertisement = false;
  target_updated = true;
  started = true;
  command_queue = [];
}

abbrev pub one_registered : DeviceRegistry
one_registered = record { sessions = (desk, 0) ∷ []; aliases = [] }

abbrev pub one_session : BleCentral
one_session = record { registry = one_registered; heap = desk_session ∷ [] }

pub added : add empty_registry 0 desk_typed ≡ ok one_registered
unfolding add insert
added = rw desk_typed_normal refl

abbrev aliased : DeviceRegistry
aliased = record { sessions = (desk, 0) ∷ []; aliases = (door, desk) ∷ [] }

alias_added : register_alias one_registered door desk ≡ ok aliased
unfolding register_alias insert lookup text_eq
alias_added = rw (door_normal, desk_normal) refl

desk_known : lookup desk one_registered.sessions ≡ some 0
unfolding lookup text_eq
desk_known = refl

desk_ensured : ensure_target 5 at_desk empty_central ≡ ok (0, one_session)
unfolding ensure_target get find_session lookup new_session add insert start normalize_mac join
    pairs
desk_ensured = refl

ensure_target_twice_example :
    (heap : List DeviceSession) × (ensure_target 9
        (record { address = desk; name = [] })
        one_session
      ≡ ok (0, record one_session { heap = heap }))
    × (length heap ≡ 1)
ensure_target_twice_example =
    ensure_target_twice 5 9 at_desk (record { address = desk; name = [] }) empty_central one_session
      0 desk_ensured (desk_normal ∙ sym desk_typed_normal)

pub desk_got : get one_registered desk ≡ ok (some 0)
unfolding get find_session lookup text_eq
desk_got = rw desk_normal refl

abbrev enters : CommandEvent
enters = command_event desk strong_enter (codes "office")

abbrev at_door : Target
at_door = record { address = door; name = [] }

abbrev with_alias : BleCentral
with_alias = record { registry = aliased; heap = desk_session ∷ [] }

door_absent : lookup door aliased.sessions ≡ none
unfolding lookup text_eq
door_absent = refl

door_aliased : lookup door aliased.aliases ≡ some desk
unfolding lookup text_eq
door_aliased = refl

ensure_target_alias_example :
    (c' : BleCentral) × (s' : DeviceSession) × (ensure_target 5 at_door with_alias ≡ ok (0, c'))
    × (get_elem? c'.heap 0 ≡ some s')
    × (s'.address ≡ door)
    × (register_alias c'.registry door s'.address ≡ ok c'.registry)
ensure_target_alias_example =
    ensure_target_alias 5 at_door with_alias door desk 0 desk_session door door door_normal
      door_absent door_aliased desk_known refl door_normal

-- A field that there is, another, a device that is found, and the config then.
abbrev some_calls : List Operation
some_calls =
    setting desk_typed (codes "name") (codes "desk")
    ∷ setting desk (codes "owner") (codes "me")
    ∷ ensuring door (codes "DEAN") []
    ∷ loading desk
    ∷ []

some_calls_encodable :
    All (λ (op : Operation). All (λ (t : Text). is_encodable t ≡ true) (texts_of op)) some_calls
unfolding is_encodable
some_calls_encodable = ((refl, tt), ((refl, tt), ((refl, (refl, tt)), (tt, tt))))

run-replay_example :
    ((Shelf.run some_calls []).0 ≡ (replay some_calls (λ n. none)).0)
    × IsFiled (Shelf.run some_calls []).1 (replay some_calls (λ n. none)).1
run-replay_example = run-replay some_calls [] (λ n. none) some_calls_encodable IsFiled-empty

-- The config file of an address, in a directory with one part.
abbrev home_paths : AppPaths
home_paths = record { base_dir = codes "srv" ∷ [] }

abbrev desk_file : FilePath
desk_file = codes "srv" ∷ codes "programdata" ∷ codes "config" ∷ codes "C0:FF:EE:00:00:01.json" ∷ []

desk_path : path_for home_paths desk ≡ ok desk_file
unfolding path_for
desk_path = rw desk_normal refl

desk_typed_path : path_for home_paths desk_typed ≡ ok desk_file
unfolding path_for
desk_typed_path = rw desk_typed_normal refl

path_for_iff_example :
    ((desk_file ≡ desk_file) ↔ (normalize_mac desk ≡ normalize_mac desk_typed))
    × (desk_file ≢ hub_config_path home_paths)
path_for_iff_example =
    path_for_iff home_paths desk desk_typed desk_file desk_file desk_path desk_typed_path

get_mac_address_lem_example :
    (normalize_mac (get_mac_address 212197013028865) ≡ ok (get_mac_address 212197013028865))
    × (bytes : Bytes) × (mac_to_bytes (get_mac_address 212197013028865) ≡ ok bytes)
    × (number_of 0 bytes ≡ 212197013028865)
get_mac_address_lem_example = get_mac_address_lem 212197013028865 (omega arith)
