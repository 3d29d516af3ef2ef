-- ===== src/Daemon/Frames.antt =====
-- What the daemon makes of the frames that its sessions hand on.
use slimhub_v.Prelude.{
  ℕ, ◌≡◌, refl, ◌∙◌, inl, inr, Bool, true, false, List, [], ◌∷◌, ◌++◌, arith, ◌==◌, length-take,
  take, All, All-take, IsByte, Text, Bytes, Bool-cases, some, Option-cases, ok, >>=-eq-ok,
  if◌then◌else◌,
}
use slimhub_v.Prelude.Dict.{lookup, insert}
use slimhub_v.Protocol.Mac.{normalize_mac}
use slimhub_v.Protocol.Mac.RoundTrip.{mac_to_bytes-format_mac}
use slimhub_v.Protocol.Command.{validate_command}
use slimhub_v.Protocol.Rawdata.{RawDataPacket}
use slimhub_v.Protocol.Frame.{
  AlertPacket, Packet, rawdata, alert, ParsedFrame, build_command_frame, parse_frame,
}
use slimhub_v.Protocol.Frame.RoundTrip.{build_frame-accepts_iff}
use slimhub_v.Protocol.Frame.Canonical.{parse_frame-IsRead}
use slimhub_v.Events.{RawDataEvent, AlertEvent, CommandEvent}
use slimhub_v.Unitspace.{UnitspaceStatus, handle, handle_signal}
use slimhub_v.Unitspace.Commands.{IsTracking, IsSendable, handle-IsSendable}
use slimhub_v.Config.{DeviceConfig, Files, asdict, load, save}
use slimhub_v.Config.Device.{save_kept}
use slimhub_v.Config.Updates.{IsConsistent, save-IsConsistent, load-IsConfig}
use slimhub_v.Ble.Registry.{DeviceRegistry, find_session, get, register_alias, when_registered}
use slimhub_v.Ble.Registry.Routing.{IsRouted, register_alias-IsRouted}
use slimhub_v.Ble.Central.{BleCentral, deliver, send_command}
use slimhub_v.Daemon.{
  Logged, raw, alerted, SlimHubDaemon, send_all, raw_event, alert_event, handle_packet,
  handle_frame,
}

-- The address of a frame of bytes is normalized.
pub parse_frame-mac :
    (bytes : Bytes) (frame : ParsedFrame)
    → All IsByte bytes
    → parse_frame bytes ≡ ok frame
    → normalize_mac frame.mac ≡ ok frame.mac
parse_frame-mac bytes frame h e =
    let r = parse_frame-IsRead bytes frame e in
    let long = r.long in
    let (norm, _) =
      mac_to_bytes-format_mac (take 6 bytes) (length-take 6 bytes (omega arith))
        (All-take IsByte 6 bytes h) in
    rw r.mac norm

-- `load` and then `save`, which writes the config of the address even if nothing changed.
pub configured :
    (files : Files) (mac n : Text)
    → IsConsistent files
    → normalize_mac mac ≡ ok n
    → (c : DeviceConfig) × (files' : Files) × (load files mac ≡ ok c)
      × (save files c ≡ ok (c, files'))
      × IsConsistent files'
configured files mac n h norm =
    let (c, e, config, _) = load-IsConfig files mac n h norm in
    let saved = save_kept files c config in
    (c, insert c.address (asdict c) files, e, saved, save-IsConsistent files _ c c h saved)

pub handle_total :
    (s : UnitspaceStatus) (event : RawDataEvent) (a : Text)
    → normalize_mac event.mac ≡ ok a
    → (r : List CommandEvent × UnitspaceStatus) × (handle s event ≡ ok r)
unfolding handle
handle_total s event a norm = elim (Bool-cases (event.packet.flag_human_presence == 1)) [
  | inl here ↦ (handle_signal a event s, rw (here, norm) refl)
  | inr nobody ↦ (([], s), rw nobody refl)
]

-- A command that can be framed has an address.
pub sendable_address :
    (command : CommandEvent)
    → IsSendable command
    → (n : Text) × (normalize_mac command.address ≡ ok n)
unfolding build_command_frame
sendable_address command (bytes, h) =
    let (valid, _, built) = >>=-eq-ok (validate_command command.command) _ h in
    let (n, norm, _, _, _) = (build_frame-accepts_iff command.address _ _).0 (bytes, built) in
    (n, norm)

send_command_total :
    (command : CommandEvent) (c : BleCentral) (n : Text)
    → normalize_mac command.address ≡ ok n
    → (sent : Bool) × (c' : BleCentral) × (send_command command c ≡ ok (sent, c'))
      × (c'.registry ≡ c.registry)
unfolding send_command get
send_command_total command c n norm = elim (Option-cases (find_session c.registry n)) [
  | inl absent ↦ (false, c, rw (norm, absent) refl, refl)
  | inr (session, found) ↦ (true, (deliver command c (some session)).1, rw (norm, found) refl, refl)
]

send_all_total :
    (commands : List CommandEvent) (c : BleCentral)
    → All IsSendable commands
    → (sent : List CommandEvent) × (c' : BleCentral) × (send_all commands c ≡ ok (sent, c'))
      × (c'.registry ≡ c.registry)
unfolding send_all
send_all_total [] c h = ([], c, refl, refl)
send_all_total (command ∷ commands) c (ready, h) =
    let (n, norm) = sendable_address command ready in
    let (sent, c', e, same) = send_command_total command c n norm in
    let (more, c'', e', same') = send_all_total commands c' h in
    (if sent then command ∷ more else more, c'', rw (e, e') refl, same' ∙ same)

-- A daemon with files that the store wrote, an estimator that remembers a normalized address if any,
-- and aliases that lead to sessions.
pub record IsSound (d : SlimHubDaemon) : Type 0 where
  pub consistent : IsConsistent d.files
  pub tracking : IsTracking d.estimator
  pub routed : IsRouted d.central.registry

-- A sound daemon that logged nothing and whose estimator is as it was.
pub record IsKept (d d' : SlimHubDaemon) : Type 0 where
  pub sound : IsSound d'
  pub same_estimator : d'.estimator ≡ d.estimator
  pub same_log : d'.log ≡ d.log

-- The event in the raw logger's queue that stands for a frame, with the config of the frame's address.
pub data IsLogged (now : ℕ) (frame : ParsedFrame) (files : Files) : Packet → Logged → Type 0 where
  of_raw :
      (packet : RawDataPacket) (config : DeviceConfig) (event : RawDataEvent)
      → load files frame.mac ≡ ok config
      → event.timestamp ≡ now
      → (event.mac ≡ frame.mac) × (event.payload ≡ frame.payload) × (event.packet ≡ packet)
      → (event.location ≡ config.location) × (event.device_type ≡ config.type)
      → IsLogged now frame files (rawdata packet) (raw event)
  of_alert :
      (packet : AlertPacket) (config : DeviceConfig) (event : AlertEvent)
      → load files frame.mac ≡ ok config
      → event.timestamp ≡ now
      → (event.mac ≡ frame.mac) × (event.payload ≡ frame.payload) × (event.packet ≡ packet)
      → (event.location ≡ config.location) × (event.device_type ≡ config.type)
      → IsLogged now frame files (alert packet) (alerted event)

-- What is left after a frame.
pub record Handled (now : ℕ) (frame : ParsedFrame) (packet : Packet) (d d' : SlimHubDaemon)
    : Type 0 where
  pub sound : IsSound d'
  pub entry : Logged
  pub logged : IsLogged now frame d.files packet entry
  pub last : d'.log ≡ d.log ++ entry ∷ []

handle_packet-Handled :
    (now : ℕ) (frame : ParsedFrame) (packet : Packet) (d : SlimHubDaemon)
    → IsSound d
    → normalize_mac frame.mac ≡ ok frame.mac
    → (sent : List CommandEvent) × (d' : SlimHubDaemon) × (handle_packet now frame packet d
        ≡ ok (sent, d'))
      × Handled now frame packet d d'
unfolding handle_packet
handle_packet-Handled now frame (rawdata packet) d h norm =
    let (config, files, e1, e2, consistent) =
      configured d.files frame.mac frame.mac h.consistent norm in
    let event : RawDataEvent = raw_event now frame packet config in
    let (r, e3) = handle_total d.estimator event frame.mac norm in
    let (ready, tracking) = handle-IsSendable d.estimator event r h.tracking e3 in
    let (sent, central, e4, same) = send_all_total r.0 d.central ready in
    (
      sent,
      record { files = files; central = central; estimator = r.1; log = d.log ++ raw event ∷ [] },
      rw (e1, e2, e3, e4) refl,
      record {
        sound = record { consistent = consistent; tracking = tracking; routed = rw same h.routed };
        entry = raw event;
        logged = of_raw packet config event e1 refl (refl, refl, refl) (refl, refl);
        last = refl;
      },
    )
handle_packet-Handled now frame (alert packet) d h norm =
    let (config, files, e1, e2, consistent) =
      configured d.files frame.mac frame.mac h.consistent norm in
    let entry : Logged = alerted (alert_event now frame packet config) in
    (
      [],
      record d { files = files; log = d.log ++ entry ∷ [] },
      rw (e1, e2) refl,
      record {
        sound = record { consistent = consistent; tracking = h.tracking; routed = h.routed };
        entry = entry;
        logged =
            of_alert packet config (alert_event now frame packet config) e1 refl (refl, refl, refl)
              (refl, refl);
        last = refl;
      },
    )

pub register_alias_total :
    (r : DeviceRegistry) (alias canonical_address a c : Text)
    → normalize_mac alias ≡ ok a
    → normalize_mac canonical_address ≡ ok c
    → (r' : DeviceRegistry) × (register_alias r alias canonical_address ≡ ok r')
unfolding register_alias
register_alias_total r alias canonical_address a c ha hc = (
  when_registered (lookup c r.sessions) r (record r { aliases = insert a c r.aliases }),
  rw (ha, hc) refl,
)

-- Every frame that `parse_frame` reads from bytes is handled without an error, from a sound daemon
-- and a session with an accepted address: exactly one event is logged, at the end, with the frame's
-- address, payload and packet and the location and type of its config, and the daemon stays sound.
pub handle_frame-Handled :
    (now : ℕ) (source_address n : Text) (bytes : Bytes) (frame : ParsedFrame) (d : SlimHubDaemon)
    → IsSound d
    → All IsByte bytes
    → parse_frame bytes ≡ ok frame
    → normalize_mac source_address ≡ ok n
    → (sent : List CommandEvent) × (d' : SlimHubDaemon) × (handle_frame now source_address frame d
        ≡ ok (sent, d'))
      × Handled now frame frame.parsed d d'
unfolding handle_frame
handle_frame-Handled now source_address n bytes frame d h below e norm =
    let mac = parse_frame-mac bytes frame below e in
    let (registry, e1) =
      register_alias_total d.central.registry frame.mac source_address frame.mac n mac norm in
    let routed =
      register_alias-IsRouted d.central.registry registry frame.mac source_address h.routed e1 in
    let d1 : SlimHubDaemon = record d { central = record d.central { registry = registry } } in
    let sound : IsSound d1 = record {
      consistent = h.consistent;
      tracking = h.tracking;
      routed = routed;
    } in
    let (sent, d', e2, handled) = handle_packet-Handled now frame frame.parsed d1 sound mac in
    (
      sent,
      d',
      rw e1 e2,
      record {
        sound = handled.sound;
        entry = handled.entry;
        logged = handled.logged;
        last = handled.last;
      },
    )
