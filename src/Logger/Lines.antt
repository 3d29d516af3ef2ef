-- ===== src/Logger/Lines.antt =====
-- Which lines stand in a file after events were written: those that were there, and one for each event
-- whose file it is.
use slimhub_v.Prelude.{
  ℕ, true, require, is_encodable, unencodable, ◌≡◌, refl, sym, ap, ◌∙◌, inl, inr, Bool, false,
  Bool-cases, List, [], ◌∷◌, ◌++◌, if◌then◌else◌, All, Text, Result, ok, err, ok-ne-err,
  Result-cases, ok-injective, >>=-eq-ok,
}
use slimhub_v.Protocol.Mac.{normalize_mac}
use slimhub_v.Protocol.Frame.{Packet, rawdata, alert}
use slimhub_v.Logger.{
  Machine, path_for, alert_path_for, alert_line, alert_line_for, write_event, write_alert,
}
use slimhub_v.Logger.Store.{
  FilePath, path_eq, path_eq_iff, Line, note, DataDir, lines_of, append_lines,
  lines_of-append_lines,
}
use slimhub_v.Logger.Queue.{Logged, raw, alerted, write, write_all}
use slimhub_v.Logger.Tables.{with_heading, line_of, write_event-eq-ok}

abbrev pub mac_of : Logged → Text
mac_of (raw event) = event.mac
mac_of (alerted event) = event.mac

abbrev pub time_of : Logged → ℕ
time_of (raw event) = event.timestamp
time_of (alerted event) = event.timestamp

abbrev pub packet_of : Logged → Packet
packet_of (raw event) = rawdata event.packet
packet_of (alerted event) = alert event.packet

-- A row can always be encoded; the line of an alert is made, and can be.
abbrev pub IsSpelled : Machine → ℕ → Packet → Type 0
IsSpelled machine timestamp (rawdata packet) = Unit
IsSpelled machine timestamp (alert packet) =
    (line : Text) × (alert_line machine timestamp packet.message ≡ ok line)
    × (is_encodable line ≡ true)

-- Every event has an address that is accepted, and a line that can be encoded.
abbrev pub AreWritable : Machine → List Logged → Type 0
AreWritable machine = All (λ (e : Logged).
    ((n : Text) × (normalize_mac (mac_of e) ≡ ok n)) × IsSpelled machine (time_of e) (packet_of e))

abbrev note_of : Result Text → List Line
note_of (err e) = []
note_of (ok line) = note line ∷ []

abbrev is_path : FilePath → Result FilePath → Bool
is_path p (err e) = false
is_path p (ok q) = path_eq q p

module _ (machine : Machine) where
  -- The file that an event belongs to.
  abbrev pub path_of : Logged → Result FilePath
  path_of (raw event) = path_for machine event
  path_of (alerted event) = alert_path_for machine event

  -- What an event adds to its file.
  abbrev pub added : Logged → List Line → List Line
  added (raw event) lines = with_heading lines (line_of machine event)
  added (alerted event) lines = note_of (alert_line_for machine event)

  -- The lines of a file after the events.
  unfoldable pub lines_after : FilePath → List Logged → List Line → List Line
  lines_after p [] lines = lines
  lines_after p (event ∷ events) lines =
      lines_after p events (if is_path p (path_of event) then lines ++ added event lines else lines)

  write-eq-ok :
      (event : Logged) (dir dir' : DataDir)
      → write machine event dir ≡ ok dir'
      → (q : FilePath) × (path_of event ≡ ok q)
        × (dir' ≡ append_lines q (added event (lines_of q dir)) dir)
  unfolding write write_alert
  write-eq-ok (raw event) dir dir' h = write_event-eq-ok machine event dir dir' h
  write-eq-ok (alerted event) dir dir' h =
      let (q, e, made) = >>=-eq-ok (alert_path_for machine event) _ h in
      let (line, spelled, checked) = >>=-eq-ok (alert_line_for machine event) _ made in
      let (_, _, done) = >>=-eq-ok (require (is_encodable line) unencodable) _ checked in
      (
        q,
        e,
        sym (ok-injective _ _ done)
            ∙ ap (λ (r : Result Text). append_lines q (note_of r) dir) (sym spelled),
      )

  write-lines :
      (event : Logged) (dir dir' : DataDir) (p : FilePath)
      → write machine event dir ≡ ok dir'
      → lines_of p dir' ≡ (
          if is_path p (path_of event)
          then lines_of p dir ++ added event (lines_of p dir)
          else lines_of p dir)
  write-lines event dir dir' p h =
      let (q, path, made) = write-eq-ok event dir dir' h in
      rw (made, path, lines_of-append_lines q p (added event (lines_of q dir)) dir)
        (elim (Bool-cases (path_eq q p)) [
          | inl same ↦ rw (same, (path_eq_iff q p).0 same) refl
          | inr other ↦ rw other refl
        ])

  write_ok :
      (event : Logged) (dir : DataDir) (n : Text)
      → normalize_mac (mac_of event) ≡ ok n
      → IsSpelled machine (time_of event) (packet_of event)
      → (dir' : DataDir) × (write machine event dir ≡ ok dir')
  unfolding write write_event write_alert path_for alert_path_for
  write_ok (raw event) dir n norm spelled = elim (Result-cases (write_event machine event dir)) [
    | inl made ↦ made
    | inr (e, failed) ↦ absurd (ok-ne-err _ _ (rw norm at failed))
  ]
  write_ok (alerted event) dir n norm (line, made, encodes) =
      elim (Result-cases (write_alert machine event dir)) [
        | inl written ↦ written
        | inr (e, failed) ↦ absurd (ok-ne-err _ _ (rw (norm, made, encodes) at failed))
      ]

  -- Events whose addresses are accepted and whose lines can be encoded are all written, and every file then holds what it held, with the
  -- lines of its own events after that, in their order.
  pub write_all-lines_after :
      (events : List Logged) (dir : DataDir)
      → AreWritable machine events
      → (dir' : DataDir) × (write_all machine events dir ≡ ok dir')
        × ((p : FilePath) → lines_of p dir' ≡ lines_after p events (lines_of p dir))
  unfolding write_all lines_after
  write_all-lines_after [] dir all = (dir, refl, λ p. refl)
  write_all-lines_after (event ∷ events) dir (((n, norm), spelled), all) =
      let (mid, e) = write_ok event dir n norm spelled in
      let (dir', made, held) = write_all-lines_after events mid all in
      (dir', rw e made, λ p. held p ∙ ap (lines_after p events) (write-lines event dir mid p e))
