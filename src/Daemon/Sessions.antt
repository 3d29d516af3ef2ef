-- ===== src/Daemon/Sessions.antt =====
-- What the daemon does with its sessions: scanned devices, and commands from the command line.
use slimhub_v.Prelude.{ℕ, ◌≡◌, refl, ◌≢◌, [], ◌∷◌, ◌++◌, get_elem?, Option, Text, some, ok}
use slimhub_v.Protocol.Mac.{normalize_mac}
use slimhub_v.Protocol.Mac.Laws.{normalize_mac_idem}
use slimhub_v.Protocol.Command.{validate_command}
use slimhub_v.Events.{CommandEvent, text_or}
use slimhub_v.Config.{DeviceConfig, default_device_type, load}
use slimhub_v.Config.Updates.{load-IsConfig, ensure_lem}
use slimhub_v.Ble.Registry.{get}
use slimhub_v.Ble.Session.{Target, DeviceSession, Status, status}
use slimhub_v.Ble.Central.{ensure_address}
use slimhub_v.Ble.Central.Laws.{ensure_target_total, send_command_lem}
use slimhub_v.Daemon.{SlimHubDaemon, connect_address, name_of, status_of, start_or_update_session}
use slimhub_v.Daemon.Requests.{command_device}
use slimhub_v.Daemon.Frames.{IsSound}

-- From a sound daemon, a scanned device with an accepted address is taken in without an error: the
-- daemon stays sound, its log and its estimator do not change, and the device's address leads to a
-- session.
pub start_or_update_session-IsSound :
    (now : ℕ) (target : Target) (n : Text) (d : SlimHubDaemon)
    → IsSound d
    → normalize_mac target.address ≡ ok n
    → (d' : SlimHubDaemon) × (session : ℕ) × (start_or_update_session now target d ≡ ok d')
      × IsSound d'
      × (get d'.central.registry target.address ≡ ok (some session))
      × (d'.log ≡ d.log)
      × (d'.estimator ≡ d.estimator)
unfolding start_or_update_session
start_or_update_session-IsSound now target n d h norm =
    let (session, central, e1, found, routed) =
      ensure_target_total now target d.central n norm h.routed in
    let (_, files, _, e2, left, _) =
      ensure_lem d.files n n (text_or target.name default_device_type) target.name h.consistent
        (normalize_mac_idem target.address n norm) in
    (
      record d { central = central; files = files },
      session,
      rw (norm, e1, e2) refl,
      record { consistent = left.consistent; tracking = h.tracking; routed = routed },
      found,
      refl,
      refl,
    )

-- The command of a request, for a session.
abbrev pub queued : Text → Text → DeviceConfig → DeviceSession → DeviceSession
queued address command config s = record s {
  command_queue =
      s.command_queue
      ++ (let c : CommandEvent = record {
        address = address;
        command = command;
        location = config.location;
      } in
          c)
        ∷ [];
}

-- From a sound daemon, a request with an accepted address and an accepted command, for an address that
-- leads to a session of the heap, is answered with the normalized address, the node's command and the
-- status of that session, which has the command at the end of its queue, with the location of the
-- address's config. The daemon stays sound, and no other session changes.
pub command_device_lem :
    (x : ℕ) (address command n valid : Text) (session other : ℕ) (s : DeviceSession)
    (d : SlimHubDaemon)
    → IsSound d
    → normalize_mac (x ∷ address) ≡ ok n
    → validate_command command ≡ ok valid
    → get d.central.registry n ≡ ok (some session)
    → get_elem? d.central.heap session ≡ some s
    → session ≢ other
    → (config : DeviceConfig) × (d' : SlimHubDaemon) × (load d.files n ≡ ok config)
      × (command_device (some (x ∷ address)) (some command) d
          ≡ ok (
            record {
              address = n;
              command = valid;
              session = some (status (queued n valid config s));
            },
            d',
          ))
      × (get_elem? d'.central.heap session ≡ some (queued n valid config s))
      × (get_elem? d'.central.heap other ≡ get_elem? d.central.heap other)
      × IsSound d'
unfolding command_device
command_device_lem x address command n valid session other s d h norm accepted found there ne =
    let (config, e, _, _) =
      load-IsConfig d.files n n h.consistent (normalize_mac_idem (x ∷ address) n norm) in
    let event : CommandEvent = record {
      address = n;
      command = valid;
      location = config.location;
    } in
    let (c, e1, same, last, kept) =
      send_command_lem event d.central session other s found there ne in
    (
      config,
      record d { central = c },
      e,
      rw (norm, accepted, found, e, e1, last) refl,
      last,
      kept,
      record { consistent = h.consistent; tracking = h.tracking; routed = rw same h.routed },
    )

-- From a sound daemon, an accepted address is connected without an error: the daemon stays sound, the
-- address leads to a session, and the log and the estimator do not change.
pub connect_address_lem :
    (now : ℕ) (address n : Text) (d : SlimHubDaemon)
    → IsSound d
    → normalize_mac address ≡ ok n
    → (status : Option Status) × (d' : SlimHubDaemon) × (session : ℕ) × (connect_address now address
          d
        ≡ ok (status, d'))
      × IsSound d'
      × (get d'.central.registry n ≡ ok (some session))
      × (d'.log ≡ d.log)
      × (d'.estimator ≡ d.estimator)
unfolding connect_address ensure_address
connect_address_lem now address n d h norm =
    let same = normalize_mac_idem address n norm in
    let (session, central, e1, found, routed) =
      ensure_target_total now (record { address = n; name = [] }) d.central n same h.routed in
    let device_type = text_or (name_of (get_elem? central.heap session)) default_device_type in
    let (_, files, _, e2, left, _) = ensure_lem d.files n n device_type [] h.consistent same in
    (
      status_of (get_elem? central.heap session),
      record d { central = central; files = files },
      session,
      rw (norm, same, e1, e2) refl,
      record { consistent = left.consistent; tracking = h.tracking; routed = routed },
      found,
      refl,
      refl,
    )
