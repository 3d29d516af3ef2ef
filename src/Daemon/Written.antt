-- ===== src/Daemon/Written.antt =====
-- From the bytes that a node sends to the lines in the files of the raw logger.
use mathlib.Core.Path.{subst}
use slimhub_v.Prelude.{
  sym, ℕ, ◌≤◌, ◌≡◌, refl, ap, ◌∙◌, Bool, true, false, List, [], ◌∷◌, ◌++◌, map, length, concat, All,
  IsByte, Text, Bytes, ok, ◌>>=◌,
}
use slimhub_v.Protocol.Mac.{normalize_mac}
use slimhub_v.Logger.{Machine}
use slimhub_v.Logger.Store.{FilePath, DataDir, lines_of}
use slimhub_v.Logger.Queue.{
  Logged, Call, logs, works, logged, start, stop, stopped, perform_all, perform_all-stop,
}
use slimhub_v.Logger.Lines.{IsSpelled, AreWritable, lines_after, write_all-lines_after}
use slimhub_v.Ble.Notify.{notify_all}
use slimhub_v.Ble.Notify.Streams.{Sent}
use slimhub_v.Daemon.{SlimHubDaemon, handle_frames}
use slimhub_v.Daemon.Frames.{IsSound, parse_frame-mac}
use slimhub_v.Daemon.Streams.{Entry, entries, sent_entries, handle_frames_stream}

-- The calls of the logger: the events in their order, and rounds of its task between them.
unfoldable pub scheduled : List Bool → List Logged → List Call
scheduled [] events = map (λ (e : Logged). logs e) events
scheduled (true ∷ rounds) events = works ∷ scheduled rounds events
scheduled (false ∷ rounds) [] = scheduled rounds []
scheduled (false ∷ rounds) (event ∷ events) = logs event ∷ scheduled rounds events

logged-logs : (events : List Logged) → logged (map (λ (e : Logged). logs e) events) ≡ events
logged-logs [] = refl
logged-logs (event ∷ events) = ap (◌∷◌ event) (logged-logs events)

logged-scheduled :
    (rounds : List Bool) (events : List Logged) → logged (scheduled rounds events) ≡ events
unfolding scheduled
logged-scheduled [] events = logged-logs events
logged-scheduled (true ∷ rounds) events = logged-scheduled rounds events
logged-scheduled (false ∷ rounds) [] = logged-scheduled rounds []
logged-scheduled (false ∷ rounds) (event ∷ events) = ap (◌∷◌ event) (logged-scheduled rounds events)

head_same : {A : Type 0} (x y : A) (xs ys : List A) → x ∷ xs ≡ y ∷ ys → (x ≡ y) × (xs ≡ ys)
head_same x y xs ys h = (cc, cc)

writable :
    (machine : Machine) (now : ℕ) (events : List Logged) (sent : List Sent)
    → All (λ (s : Sent). All IsByte s.bytes) sent
    → All (λ (s : Sent). IsSpelled machine now s.frame.parsed) sent
    → entries events ≡ sent_entries now sent
    → AreWritable machine events
writable machine now [] sent below spelled same = tt
writable machine now (event ∷ events) [] below spelled same = cc
writable machine now (event ∷ events) (s ∷ sent) (bytes, below) (spelled, rest) same =
    let (here, others) = head_same _ _ _ _ same in
    (
      (
        (
          s.frame.mac,
          rw (ap (λ (x : Entry). x.0) here) (parse_frame-mac s.bytes s.frame bytes s.read),
        ),
        subst (λ (x : Entry). IsSpelled machine x.3 x.2) (sym here) spelled,
      ),
      writable machine now events sent below rest others,
    )

-- Frames of bytes that `build_frame` makes and `parse_frame` accepts, within the assembler's limit, with
-- alerts for which a line is made (json raises nothing but a JSONDecodeError) that can be encoded, sent one
-- after the other and notified in chunks that are cut at any places, are all on disk after the logger stops, whenever its
-- task runs in between: a sound daemon logs one event for each, in their order, with the time and the
-- frame's address, payload and packet, no write of their lines fails, and each file holds what it held, with
-- the lines of its own events after that, in their order.
pub handle_frames_written :
    (machine : Machine) (rounds : List Bool) (dir : DataDir) (now m : ℕ) (source_address n : Text)
    (sent : List Sent) (chunks : List Bytes) (d : SlimHubDaemon)
    → IsSound d
    → All (λ s. All IsByte s.bytes) sent
    → All (λ s. length s.bytes ≤ m) sent
    → concat chunks ≡ concat (map (λ (s : Sent). s.bytes) sent)
    → All (λ s. IsSpelled machine now s.frame.parsed) sent
    → normalize_mac source_address ≡ ok n
    → (d' : SlimHubDaemon) × (events : List Logged) × (dir' : DataDir) × (handle_frames now
          source_address
          (notify_all (record { buffer = []; max_frame_len = m }) chunks).0
          d
        ≡ ok d')
      × (d'.log ≡ d.log ++ events)
      × (entries events ≡ sent_entries now sent)
      × ((do
        l ← perform_all machine (scheduled rounds events) (start (stopped dir))
        stop machine l)
          ≡ ok (stopped dir'))
      × ((p : FilePath) → lines_of p dir' ≡ lines_after machine p events (lines_of p dir))
handle_frames_written machine rounds dir now m source_address n sent chunks d sound below fits cut
      spelled norm =
    let (d', events, e, _, log, same) =
      handle_frames_stream now m source_address n sent chunks d sound below fits cut norm in
    let (dir', made, held) =
      write_all-lines_after machine events dir
        (writable machine now events sent below spelled same) in
    (
      d',
      events,
      dir',
      e,
      log,
      same,
      perform_all-stop machine (scheduled rounds events) dir
          ∙ rw (logged-scheduled rounds events, made) refl,
      held,
    )
