-- ===== src/Daemon/History.antt =====
-- What the log of a server says of its estimator: whatever happens, the estimator has handled the events
-- with data that were logged, in their order, and nothing else.
use mathlib.Core.Path.{subst}
use slimhub_v.Prelude.{
  ℕ, ◌≡◌, refl, sym, ap, ◌∙◌, inl, inr, List, [], ◌∷◌, ◌++◌, append_assoc, append-nil, All, Text,
  ok, err, Result-cases, >>=-eq-ok, ok-injective,
}
use slimhub_v.Protocol.Mac.{normalize_mac}
use slimhub_v.Protocol.Frame.{Packet, rawdata, alert, ParsedFrame}
use slimhub_v.Events.{RawDataEvent, CommandEvent}
use slimhub_v.Unitspace.{UnitspaceStatus, handle, handle_all}
use slimhub_v.Unitspace.Commands.{handle_all-eq-ok}
use slimhub_v.Unitspace.Occupancy.{Presence, Tracks, NoExit, after_commands, handle_all-Tracks}
use slimhub_v.Config.{load, save}
use slimhub_v.Ble.Registry.{register_alias}
use slimhub_v.Ble.Session.{Target}
use slimhub_v.Daemon.{
  Logged, raw, alerted, SlimHubDaemon, send_all, raw_event, alert_event, handle_packet,
  handle_frame,
}
use slimhub_v.Daemon.Frames.{IsSound, IsKept}
use slimhub_v.Daemon.Sessions.{start_or_update_session-IsSound}
use slimhub_v.Daemon.Arguments.{Runtime}
use slimhub_v.Daemon.Dispatch.{Server}
use slimhub_v.Daemon.Dispatch.Answers.{handle_client-IsKept}
use slimhub_v.Daemon.Scan.{discover_named_devices, start_all, scan_round}
use slimhub_v.Daemon.Scan.Found.{start_all-ok, start_all-err}
use slimhub_v.Daemon.Reach.{Step, client, scan, frame, refused, Reaches, here, after, Step-IsSound}

-- The events with data among those that were logged.
unfoldable pub raw_events : List Logged → List RawDataEvent
raw_events [] = []
raw_events (raw event ∷ log) = event ∷ raw_events log
raw_events (alerted event ∷ log) = raw_events log

raw_events-append : (l m : List Logged) → raw_events (l ++ m) ≡ raw_events l ++ raw_events m
unfolding raw_events
raw_events-append [] m = refl
raw_events-append (raw event ∷ l) m = ap (◌∷◌ event) (raw_events-append l m)
raw_events-append (alerted event ∷ l) m = raw_events-append l m

handle_all-append :
    (events more : List RawDataEvent) (s : UnitspaceStatus)
    (r t : List CommandEvent × UnitspaceStatus)
    → handle_all s events ≡ ok r
    → handle_all r.1 more ≡ ok t
    → handle_all s (events ++ more) ≡ ok (r.0 ++ t.0, t.1)
unfolding handle_all
handle_all-append [] more s r t h k =
    let same : ([], s) ≡ r = ok-injective _ _ h in
    ap (λ (u : List CommandEvent × UnitspaceStatus). handle_all u.1 more) same
    ∙ k
    ∙ ap (λ (u : List CommandEvent × UnitspaceStatus). ok (u.0 ++ t.0, t.1)) same
handle_all-append (event ∷ events) more s r t h k =
    let (p, q, e, f, same) = handle_all-eq-ok s event events r h in
    let rest =
      handle_all-append events more p.1 q t f
        (ap (λ (u : List CommandEvent × UnitspaceStatus). handle_all u.1 more) (sym same) ∙ k) in
    rw (e, rest) refl
    ∙ ap (λ (l : List CommandEvent). ok (l, t.1)) (sym (append_assoc p.0 q.0 t.0))
    ∙ ap (λ (u : List CommandEvent × UnitspaceStatus). ok (u.0 ++ t.0, t.1)) (sym same)

-- A daemon that went on from another one: what it logged, and what its estimator made of it.
record Follows (d d' : SlimHubDaemon) : Type 0 where
  entries : List Logged
  commands : List CommandEvent
  logged : d'.log ≡ d.log ++ entries
  handled : handle_all d.estimator (raw_events entries) ≡ ok (commands, d'.estimator)

kept-Follows : (d d' : SlimHubDaemon) → IsKept d d' → Follows d d'
unfolding handle_all raw_events
kept-Follows d d' h = record {
  entries = [];
  commands = [];
  logged = h.same_log ∙ sym (append-nil d.log);
  handled = ap (λ (s : UnitspaceStatus). ok ([], s)) (sym h.same_estimator);
}

after-Follows : (d d1 d2 : SlimHubDaemon) → Follows d d1 → Follows d1 d2 → Follows d d2
after-Follows d d1 d2 f g = record {
  entries = f.entries ++ g.entries;
  commands = f.commands ++ g.commands;
  logged =
      g.logged
      ∙ ap (λ (l : List Logged). l ++ g.entries) f.logged
      ∙ append_assoc d.log f.entries g.entries;
  handled =
      ap (handle_all d.estimator) (raw_events-append f.entries g.entries)
      ∙ handle_all-append (raw_events f.entries) (raw_events g.entries) d.estimator
          (f.commands, d1.estimator) (g.commands, d2.estimator) f.handled g.handled;
}

packet-Follows :
    (now : ℕ) (parsed : ParsedFrame) (packet : Packet) (d : SlimHubDaemon)
    (r : List CommandEvent × SlimHubDaemon)
    → handle_packet now parsed packet d ≡ ok r
    → Follows d r.1
unfolding handle_packet handle_all raw_events
packet-Follows now parsed (rawdata packet) d r e =
    let (config, _, e1) = >>=-eq-ok (load d.files parsed.mac) _ e in
    let ((saved, files), _, e2) = >>=-eq-ok (save d.files config) _ e1 in
    let event : RawDataEvent = raw_event now parsed packet saved in
    let ((commands, status), handled, e3) = >>=-eq-ok (handle d.estimator event) _ e2 in
    let ((sent, central), _, e4) = >>=-eq-ok (send_all commands d.central) _ e3 in
    subst (λ (u : List CommandEvent × SlimHubDaemon). Follows d u.1) (ok-injective _ _ e4)
      (record {
        entries = raw event ∷ [];
        commands = commands;
        logged = refl;
        handled = rw (handled, append-nil commands) refl;
      })
packet-Follows now parsed (alert packet) d r e =
    let (config, _, e1) = >>=-eq-ok (load d.files parsed.mac) _ e in
    let ((saved, files), _, e2) = >>=-eq-ok (save d.files config) _ e1 in
    subst (λ (u : List CommandEvent × SlimHubDaemon). Follows d u.1) (ok-injective _ _ e2)
      (record {
        entries = alerted (alert_event now parsed packet saved) ∷ [];
        commands = [];
        logged = refl;
        handled = refl;
      })

frame-Follows :
    (now : ℕ) (source_address : Text) (parsed : ParsedFrame) (d : SlimHubDaemon)
    (r : List CommandEvent × SlimHubDaemon)
    → handle_frame now source_address parsed d ≡ ok r
    → Follows d r.1
unfolding handle_frame
frame-Follows now source_address parsed d r e =
    let (registry, _, e1) =
      >>=-eq-ok (register_alias d.central.registry parsed.mac source_address) _ e in
    let f =
      packet-Follows now parsed parsed.parsed
        (record d { central = record d.central { registry = registry } }) r e1 in
    record { entries = f.entries; commands = f.commands; logged = f.logged; handled = f.handled }

scan-IsKept :
    (now : ℕ) (targets : List Target) (d : SlimHubDaemon)
    → IsSound d
    → IsKept d (start_all now targets d)
unfolding start_all
scan-IsKept now [] d sound = record { sound = sound; same_estimator = refl; same_log = refl }
scan-IsKept now (target ∷ targets) d sound = elim (Result-cases (normalize_mac target.address)) [
  | inr (e, failed) ↦
      subst (IsKept d) (sym (start_all-err now target targets d e failed))
        (record { sound = sound; same_estimator = refl; same_log = refl })
  | inl (n, norm) ↦
      let (d', _, e, sound', _, log, estimator) =
        start_or_update_session-IsSound now target n d sound norm in
      let rest = scan-IsKept now targets d' sound' in
      subst (IsKept d) (sym (start_all-ok now target targets d d' e)) (record {
        sound = rest.sound;
        same_estimator = rest.same_estimator ∙ estimator;
        same_log = rest.same_log ∙ log;
      })
]

Step-Follows :
    (runtime : Runtime) (s u : Server)
    → Step runtime s u
    → IsSound s.daemon
    → Follows s.daemon u.daemon
unfolding scan_round
Step-Follows runtime _ _ (client now line s encodes) sound =
    kept-Follows _ _ (handle_client-IsKept runtime now line s sound)
Step-Follows runtime _ _ (scan name now (err e) s encodes) sound =
    kept-Follows _ _ (record { sound = sound; same_estimator = refl; same_log = refl })
Step-Follows runtime _ _ (scan name now (ok devices) s encodes) sound =
    kept-Follows _ _ (scan-IsKept now (discover_named_devices name devices) s.daemon sound)
Step-Follows runtime _ _ (frame now source_address bytes parsed sent d s below read handled) sound =
    frame-Follows now source_address parsed s.daemon (sent, d) handled
Step-Follows runtime _ _ (refused source_address e s norm) sound =
    kept-Follows _ _ (record { sound = sound; same_estimator = refl; same_log = refl })

reached :
    (runtime : Runtime) (s u : Server)
    → Reaches runtime s u
    → IsSound s.daemon
    → IsSound u.daemon × Follows s.daemon u.daemon
reached runtime s _ here sound =
    (sound, kept-Follows _ _ (record { sound = sound; same_estimator = refl; same_log = refl }))
reached runtime s _ (after t u path step) sound =
    let (there, follows) = reached runtime s t path sound in
    (
      Step-IsSound runtime t u step there,
      after-Follows s.daemon t.daemon u.daemon follows (Step-Follows runtime t u step there),
    )

raw_events-NoExit :
    (l m : List Logged) → All NoExit (raw_events (l ++ m)) → All NoExit (raw_events m)
unfolding raw_events
raw_events-NoExit [] m h = h
raw_events-NoExit (raw event ∷ l) m (_, h) = raw_events-NoExit l m h
raw_events-NoExit (alerted event ∷ l) m h = raw_events-NoExit l m h

-- A server with a sound daemon goes through lines of clients with texts that can be encoded, scans
-- that find names that can be encoded, and frames, in any order. If no event that is logged in the end signals an exit, and the nodes entered before
-- were just the remembered one, then the log has grown at its end, the estimator has handled the events
-- with data among the new entries, in their order, and nothing else, and the commands that it made of
-- them leave just the remembered node entered.
pub Reaches-Tracks :
    (runtime : Runtime) (s u : Server) (p : Presence)
    → IsSound s.daemon
    → Reaches runtime s u
    → Tracks p s.daemon.estimator
    → All NoExit (raw_events u.daemon.log)
    → (entries : List Logged) × (commands : List CommandEvent) × (u.daemon.log
        ≡ s.daemon.log ++ entries)
      × (handle_all s.daemon.estimator (raw_events entries) ≡ ok (commands, u.daemon.estimator))
      × Tracks (after_commands commands p) u.daemon.estimator
Reaches-Tracks runtime s u p sound path tracks stays =
    let (_, f) = reached runtime s u path sound in
    let new_stays =
      raw_events-NoExit s.daemon.log f.entries
        (subst (λ (l : List Logged). All NoExit (raw_events l)) f.logged stays) in
    (
      f.entries,
      f.commands,
      f.logged,
      f.handled,
      handle_all-Tracks (raw_events f.entries) s.daemon.estimator (f.commands, u.daemon.estimator) p
          new_stays tracks f.handled,
    )
