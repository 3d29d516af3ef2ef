-- ===== src/Daemon/Report/Devices.antt =====
-- The list of devices, address by address: what its sessions tell, and the last of its configs.
use slimhub_v.Prelude.{
  true, ℕ, length, get_elem?, Option-cases, ◌≡◌, refl, ap, ◌∙◌, inl, inr, Bool, false, Bool-cases,
  List, [], ◌∷◌, map, if◌then◌else◌, All, Text, text_eq, text_eq_iff, Option, none, some, Result,
  ok, err,
}
use slimhub_v.Prelude.Dict.{NodupKeys, insert-NodupKeys, Dict, lookup, insert, lookup-insert}
use slimhub_v.Protocol.Mac.{normalize_mac}
use slimhub_v.Config.{DeviceConfig, list_all}
use slimhub_v.Config.Device.{IsConfig}
use slimhub_v.Config.Listing.{IsStored, list_all-perm}
use slimhub_v.Ble.Registry.{DeviceRegistry, resolve_address, resolve_found}
use slimhub_v.Prelude.Sorting.{sort_by}
use slimhub_v.Config.{text_lt}
use slimhub_v.Ble.Session.{DeviceSession, status}
use slimhub_v.Ble.Central.{BleCentral, aliases_to, statuses, list_status}
use slimhub_v.Daemon.{SlimHubDaemon}
use slimhub_v.Daemon.Report.{
  of_status, Device, configured, device_or, by_address, put_configs, devices_payload,
}

abbrev resolves_to : Result Text → Text → Bool
resolves_to (err e) k = false
resolves_to (ok canonical) k = text_eq canonical k

-- The last config whose address resolves to the given one, else the one found before.
unfoldable pub last_config :
    DeviceRegistry → Text → List DeviceConfig → Option DeviceConfig → Option DeviceConfig
last_config r k [] found = found
last_config r k (config ∷ configs) found =
    last_config r k configs
      (if resolves_to (resolve_address r config.address) k then some config else found)

-- The last session in the registry with the given address, with its aliases in order, else the one found
-- before.
abbrev told_by :
    Text
    → List Text
    → Option DeviceSession
    → Option (DeviceSession × List Text)
    → Option (DeviceSession × List Text)
told_by k aliases none found = found
told_by k aliases (some s) found =
    if text_eq s.address k then some (s, sort_by text_lt aliases) else found

unfoldable pub last_session :
    BleCentral
    → Text
    → Dict ℕ
    → Option (DeviceSession × List Text)
    → Option (DeviceSession × List Text)
last_session c k [] found = found
last_session c k ((address, session) ∷ sessions) found =
    last_session c k sessions
      (told_by k (aliases_to address c.registry.aliases) (get_elem? c.heap session) found)

abbrev config_type : Option DeviceConfig → Option Text
config_type none = none
config_type (some config) = some config.type

abbrev config_address : Option DeviceConfig → Option Text
config_address none = none
config_address (some config) = some config.address

abbrev config_name : Option DeviceConfig → Option Text
config_name none = none
config_name (some config) = some config.name

abbrev config_location : Option DeviceConfig → Option Text
config_location none = none
config_location (some config) = some config.location

-- The entry of an address, from its session and its config.
abbrev pub entry_at :
    Text → Option (DeviceSession × List Text) → Option DeviceConfig → Option Device
entry_at k none none = none
entry_at k none (some config) = some (record {
  address = k;
  name = [];
  connected = false;
  last_seen = 0;
  last_error = none;
  queued_commands = 0;
  waiting_for_advertisement = none;
  aliases = none;
  type = some config.type;
  packet_address = some config.address;
  configured_name = some config.name;
  location = some config.location;
})
entry_at k (some (s, aliases)) config = some (record {
  address = s.address;
  name = s.name;
  connected = s.connected;
  last_seen = s.last_seen;
  last_error = s.last_error;
  queued_commands = length s.command_queue;
  waiting_for_advertisement = some s.waiting_for_advertisement;
  aliases = some aliases;
  type = config_type config;
  packet_address = config_address config;
  configured_name = config_name config;
  location = config_location config;
})

abbrev device_at : Text → Option Device → Option DeviceConfig → Option Device
device_at k told none = told
device_at k told (some config) = some (configured config (device_or told k))

device_at-entry_at :
    (k : Text) (told : Option (DeviceSession × List Text)) (config : Option DeviceConfig)
    → device_at k (entry_at k told none) config ≡ entry_at k told config
device_at-entry_at k none none = refl
device_at-entry_at k none (some config) = refl
device_at-entry_at k (some (s, aliases)) none = refl
device_at-entry_at k (some (s, aliases)) (some config) = refl

-- What the sessions tell.
told_lem :
    (c : BleCentral) (k : Text) (sessions : Dict ℕ) (devices : Dict Device)
    (found : Option (DeviceSession × List Text))
    → NodupKeys devices
    → lookup k devices ≡ entry_at k found none
    → (lookup k (by_address (statuses c sessions) devices)
        ≡ entry_at k (last_session c k sessions found) none)
      × NodupKeys (by_address (statuses c sessions) devices)
unfolding by_address statuses last_session status
told_lem c k [] devices found distinct at = (at, distinct)
told_lem c k ((address, session) ∷ sessions) devices found distinct at =
    elim (Option-cases (get_elem? c.heap session)) [
      | inl absent ↦ rw absent (told_lem c k sessions devices found distinct at)
      | inr (s, there) ↦ rw there (
          told_lem c k sessions _ _ (insert-NodupKeys s.address _ devices distinct)
            (lookup-insert k s.address _ devices ∙ either s (text_eq s.address k)))
    ]
  where
    either :
        (s : DeviceSession) (b : Bool)
        → (if b
            then some (
                of_status (record {
                  status = status s;
                  aliases = sort_by text_lt (aliases_to address c.registry.aliases);
                }))
            else lookup k devices)
          ≡ entry_at k
              (if b
                then some (s, sort_by text_lt (aliases_to address c.registry.aliases))
                else found)
              none
    either s true = refl
    either s false = at

configured_again :
    (k : Text) (told : Option Device) (found : Option DeviceConfig) (config : DeviceConfig)
    → configured config (device_or (device_at k told found) k)
      ≡ configured config (device_or told k)
configured_again k told none config = refl
configured_again k told (some before) config = refl

next_entry :
    (k canonical : Text) (told : Option Device) (found : Option DeviceConfig)
    (config : DeviceConfig) (devices : Dict Device)
    → lookup k devices ≡ device_at k told found
    → lookup k (
        insert canonical
          (configured config (device_or (lookup canonical devices) canonical))
          devices)
      ≡ device_at k told (if text_eq canonical k then some config else found)
next_entry k canonical told found config devices at = elim (Bool-cases (text_eq canonical k)) [
  | inr other ↦ looked ∙ rw other at
  | inl same ↦
      looked
      ∙ rw (same, (text_eq_iff canonical k).0 same, at)
          (ap some (configured_again k told found config))
]
  where
    looked :
        lookup k (
          insert canonical
            (configured config (device_or (lookup canonical devices) canonical))
            devices)
        ≡ (if text_eq canonical k
            then some (configured config (device_or (lookup canonical devices) canonical))
            else lookup k devices)
    looked = lookup-insert k canonical _ devices

resolves :
    (r : DeviceRegistry) (address n : Text)
    → normalize_mac address ≡ ok n
    → (canonical : Text) × (resolve_address r address ≡ ok canonical)
unfolding resolve_address
resolves r address n norm =
    (resolve_found (lookup n r.sessions) (lookup n r.aliases) n, rw norm refl)

put_configs_lem :
    (r : DeviceRegistry) (configs : List DeviceConfig) (devices : Dict Device)
    → All IsConfig configs
    → (devices' : Dict Device) × (put_configs r configs devices ≡ ok devices')
      × (NodupKeys devices → NodupKeys devices')
      × ((k : Text) (told : Option Device) (found : Option DeviceConfig)
          → lookup k devices ≡ device_at k told found
          → lookup k devices' ≡ device_at k told (last_config r k configs found))
unfolding put_configs last_config
put_configs_lem r [] devices all = (devices, refl, λ distinct. distinct, λ k told found at. at)
put_configs_lem r (config ∷ configs) devices (here, all) =
    let (canonical, e) = resolves r config.address config.address here.normal in
    let (devices', made, unique, at) =
      put_configs_lem r configs
        (insert canonical (configured config (device_or (lookup canonical devices) canonical))
          devices)
        all in
    (
      devices',
      rw e made,
      λ distinct. unique (insert-NodupKeys canonical _ devices distinct),
      λ k told found before. rw e (
          at k told (if text_eq canonical k then some config else found)
            (next_entry k canonical told found config devices before)),
    )

-- If every file of the config directory was written by the store, the list of devices is given: it has one
-- entry at each address, if any. Where the last session with that address is known, this is what it tells,
-- with the packet address, name, type and location of the last config whose address resolves to it, if
-- any; without a session it is an absent device with these; and without either there is no entry.
pub devices_payload_lem :
    (d : SlimHubDaemon)
    → IsStored d.files
    → (configs : List DeviceConfig) × (devices : Dict Device) × (list_all d.files ≡ ok configs)
      × (devices_payload d ≡ ok (map (λ (entry : Text × Device). entry.1) devices))
      × NodupKeys devices
      × ((k : Text)
          → lookup k devices
            ≡ entry_at k
                (last_session d.central k d.central.registry.sessions none)
                (last_config d.central.registry k configs none))
unfolding devices_payload list_status lookup
devices_payload_lem d stored =
    let (configs, listed, _, _, all) = list_all-perm d.files stored in
    let sessions = d.central.registry.sessions in
    let (devices, made, unique, at) =
      put_configs_lem d.central.registry configs (by_address (statuses d.central sessions) [])
        all in
    (
      configs,
      devices,
      listed,
      rw (listed, made) refl,
      unique (told_lem d.central [] sessions [] none tt refl).1,
      λ k.
          at k (entry_at k (last_session d.central k sessions none) none) none
            (told_lem d.central k sessions [] none tt refl).0
          ∙ device_at-entry_at k (last_session d.central k sessions none)
              (last_config d.central.registry k configs none),
    )
