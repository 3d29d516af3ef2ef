-- ===== src/Daemon/Streams.antt =====
-- From the bytes that a node sends to the events in the raw logger's queue.
use slimhub_v.Prelude.{
  ℕ, ◌≤◌, ◌≡◌, refl, sym, ap, ◌∙◌, List, [], ◌∷◌, ◌++◌, append_assoc, append-nil, map, length,
  concat, All, IsByte, Text, Bytes, ok,
}
use slimhub_v.Protocol.Mac.{normalize_mac}
use slimhub_v.Protocol.Frame.{rawdata, alert, Packet, ParsedFrame}
use slimhub_v.Protocol.Assembler.{FrameAssembler}
use slimhub_v.Config.{Files}
use slimhub_v.Ble.Notify.{notify_all}
use slimhub_v.Ble.Notify.Streams.{Sent, notify_all_stream}
use slimhub_v.Logger.Lines.{mac_of, packet_of, time_of}
use slimhub_v.Daemon.{Logged, raw, alerted, SlimHubDaemon, handle_frames}
use slimhub_v.Daemon.Frames.{IsSound, IsLogged, of_raw, of_alert, handle_frame-Handled}

abbrev pub payload_of : Logged → Bytes
payload_of (raw event) = event.payload
payload_of (alerted event) = event.payload

-- The address, the payload, the packet and the time of a logged event.
abbrev pub Entry : Type 0
Entry = Text × Bytes × Packet × ℕ

abbrev pub entry_of : Logged → Entry
entry_of e = (mac_of e, payload_of e, packet_of e, time_of e)

logged_same :
    (now : ℕ) (frame : ParsedFrame) (files : Files) (packet : Packet) (entry : Logged)
    → IsLogged now frame files packet entry
    → entry_of entry ≡ (frame.mac, frame.payload, packet, now)
logged_same now frame files _ _ (of_raw p config event e time (mac, payload, packet) _) =
    λ i. (mac i, payload i, rawdata (packet i), time i)
logged_same now frame files _ _ (of_alert p config event e time (mac, payload, packet) _) =
    λ i. (mac i, payload i, alert (packet i), time i)

-- Those of logged events, and of frames that are handled at one time.
abbrev pub entries : List Logged → List Entry
entries = map entry_of

abbrev pub sent_entries : ℕ → List Sent → List Entry
sent_entries now = map (λ (s : Sent). (s.frame.mac, s.frame.payload, s.frame.parsed, now))

handle_frames_sent :
    (now : ℕ) (source_address n : Text) (sent : List Sent) (d : SlimHubDaemon)
    → IsSound d
    → All (λ s. All IsByte s.bytes) sent
    → normalize_mac source_address ≡ ok n
    → (d' : SlimHubDaemon) × (logged : List Logged) × (handle_frames now source_address
          (map (λ (s : Sent). s.frame) sent)
          d
        ≡ ok d')
      × IsSound d'
      × (d'.log ≡ d.log ++ logged)
      × (entries logged ≡ sent_entries now sent)
unfolding handle_frames
handle_frames_sent now source_address n [] d h below norm =
    (d, [], refl, h, sym (append-nil d.log), refl)
handle_frames_sent now source_address n (s ∷ sent) d h (bytes, below) norm =
    let (commands, d1, e1, one) =
      handle_frame-Handled now source_address n s.bytes s.frame d h bytes s.read norm in
    let (d', logged, e, sound, log, same) =
      handle_frames_sent now source_address n sent d1 one.sound below norm in
    let here = logged_same now s.frame d.files s.frame.parsed one.entry one.logged in
    (
      d',
      one.entry ∷ logged,
      rw e1 e,
      sound,
      log
          ∙ ap (λ (l : List Logged). l ++ logged) one.last
          ∙ append_assoc d.log (one.entry ∷ []) logged,
      λ i. here i ∷ same i,
    )

-- Frames of bytes that `build_frame` makes and `parse_frame` accepts, within the assembler's limit,
-- sent one after the other and notified in chunks that are cut at any places, are all handled without an
-- error by a sound daemon, from a session with an accepted address: it stays sound, and logs exactly
-- one event for each frame, in their order, with the time, and the frame's address, payload and packet.
pub handle_frames_stream :
    (now m : ℕ) (source_address n : Text) (sent : List Sent) (chunks : List Bytes)
    (d : SlimHubDaemon)
    → IsSound d
    → All (λ s. All IsByte s.bytes) sent
    → All (λ s. length s.bytes ≤ m) sent
    → concat chunks ≡ concat (map (λ (s : Sent). s.bytes) sent)
    → normalize_mac source_address ≡ ok n
    → (d' : SlimHubDaemon) × (logged : List Logged) × (handle_frames now source_address
          (notify_all (record { buffer = []; max_frame_len = m }) chunks).0
          d
        ≡ ok d')
      × IsSound d'
      × (d'.log ≡ d.log ++ logged)
      × (entries logged ≡ sent_entries now sent)
handle_frames_stream now m source_address n sent chunks d h below fits cut norm =
    let (d', logged, e, sound, log, same) =
      handle_frames_sent now source_address n sent d h below norm in
    (
      d',
      logged,
      ap (λ (r : List ParsedFrame × FrameAssembler). handle_frames now source_address r.0 d)
            (notify_all_stream m sent chunks fits cut)
          ∙ e,
      sound,
      log,
      same,
    )
