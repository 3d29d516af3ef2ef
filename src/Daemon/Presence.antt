-- ===== src/Daemon/Presence.antt =====
-- From a frame with presence data to the queues of the sessions: what `handle_frame` makes of it.
use slimhub_v.Prelude.{ℕ, ◌≡◌, refl, List, [], ◌∷◌, ◌++◌, All, IsByte, Text, Bytes, ok}
use slimhub_v.Protocol.Mac.{normalize_mac}
use slimhub_v.Protocol.Rawdata.{RawDataPacket}
use slimhub_v.Protocol.Frame.{rawdata, ParsedFrame, parse_frame}
use slimhub_v.Events.{RawDataEvent, CommandEvent}
use slimhub_v.Unitspace.{UnitspaceStatus, handle}
use slimhub_v.Unitspace.Commands.{handle-IsSendable}
use slimhub_v.Config.{DeviceConfig, load}
use slimhub_v.Ble.Registry.{DeviceRegistry, register_alias}
use slimhub_v.Ble.Central.{BleCentral}
use slimhub_v.Daemon.{SlimHubDaemon, raw, raw_event, handle_packet, handle_frame}
use slimhub_v.Daemon.Frames.{
  IsSound, parse_frame-mac, configured, handle_total, register_alias_total,
}
use slimhub_v.Daemon.Delivery.{delivered, AreQueued, send_all_lem}

-- The central when the commands of a frame are sent: its source is registered.
abbrev pub registered : DeviceRegistry → SlimHubDaemon → BleCentral
registered registry d = record d.central { registry = registry }

-- A frame with data, of bytes that parse and from a session with an accepted address, is handled by a
-- sound daemon without an error: its event, with the location of its config, goes to the estimator.
-- The commands that are sent are those of the estimator whose address leads to a session, in their
-- order, once the source is registered; each session has those that lead to it at the end of its
-- queue, and nothing else of it changes.
pub handle_frame-delivers :
    (now : ℕ) (source_address n : Text) (bytes : Bytes) (frame : ParsedFrame)
    (packet : RawDataPacket) (d : SlimHubDaemon)
    → IsSound d
    → All IsByte bytes
    → parse_frame bytes ≡ ok frame
    → frame.parsed ≡ rawdata packet
    → normalize_mac source_address ≡ ok n
    → (config : DeviceConfig) × (registry : DeviceRegistry) × (commands : List CommandEvent)
      × (status : UnitspaceStatus) × (d' : SlimHubDaemon) × (load d.files frame.mac ≡ ok config)
      × (register_alias d.central.registry frame.mac source_address ≡ ok registry)
      × (handle d.estimator (raw_event now frame packet config) ≡ ok (commands, status))
      × (handle_frame now source_address frame d ≡ ok (delivered registry commands, d'))
      × (d'.estimator ≡ status)
      × AreQueued commands (registered registry d) d'.central
unfolding handle_frame handle_packet
handle_frame-delivers now source_address n bytes frame packet d h below e of_data norm =
    let mac = parse_frame-mac bytes frame below e in
    let (registry, e1) =
      register_alias_total d.central.registry frame.mac source_address frame.mac n mac norm in
    let (config, files, e2, e3, _) = configured d.files frame.mac frame.mac h.consistent mac in
    let event : RawDataEvent = raw_event now frame packet config in
    let (r, e4) = handle_total d.estimator event frame.mac mac in
    let (ready, _) = handle-IsSendable d.estimator event r h.tracking e4 in
    let (central, e5, _, queued) = send_all_lem r.0 (registered registry d) ready in
    (
      config,
      registry,
      r.0,
      r.1,
      record { files = files; central = central; estimator = r.1; log = d.log ++ raw event ∷ [] },
      e2,
      e1,
      e4,
      rw (e1, of_data, e2, e3, e4, e5) refl,
      refl,
      queued,
    )
