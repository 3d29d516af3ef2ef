-- ===== src/Logger/Tables.antt =====
-- What the files of the data directory look like.
use slimhub_v.Prelude.{
  ◌≡◌, refl, sym, ap, ◌∙◌, inl, inr, Bool-cases, List, [], ◌∷◌, ◌++◌, if◌then◌else◌, All,
  All-append, Text, codes, ok, require, is_encodable, unencodable, ok-injective, >>=-eq-ok,
}
use slimhub_v.Protocol.Mac.{normalize_mac}
use slimhub_v.Events.{RawDataEvent, AlertEvent}
use slimhub_v.Logger.{
  Machine, csv_fields, sounds, path_for, alert_path_for, row_for, cells_of, write_event,
  write_alert, alert_line_for,
}
use slimhub_v.Logger.Store.{
  FilePath, path_eq, path_eq_iff, Cell, Line, headings, row, DataDir, lines_of, append_lines,
  is_new, is_none, lines_of-append_lines,
}
use slimhub_v.Logger.Rows.{columns, row_for_lem}
use slimhub_v.Logger.Queue.{Logged, raw, alerted, write, write_all}

-- The name of the directory that a file stands in: "rawdata" or "debugstr".
unfoldable pub directory_of : FilePath → Text
directory_of [] = []
directory_of (name ∷ []) = []
directory_of (directory ∷ name ∷ []) = directory
directory_of (part ∷ directory ∷ name ∷ rest) = directory_of (directory ∷ name ∷ rest)

directory_of-append :
    (front : FilePath) (a b directory name : Text)
    → directory_of (front ++ a ∷ b ∷ directory ∷ name ∷ []) ≡ directory
unfolding directory_of
directory_of-append [] a b directory name = refl
directory_of-append (p ∷ []) a b directory name = refl
directory_of-append (p ∷ q ∷ []) a b directory name = refl
directory_of-append (p ∷ q ∷ r ∷ front) a b directory name =
    directory_of-append (q ∷ r ∷ front) a b directory name

-- A row of an event.
abbrev pub IsRow : Machine → Line → Type 0
IsRow machine line =
    (event : RawDataEvent) × (line ≡ row (columns machine event (sounds event.packet.sound)))

-- A file with nothing in it, or one heading and rows under it.
pub data IsTable (machine : Machine) : List Line → Type 0 where
  empty : IsTable machine []
  table :
      (rows : List Line) → All (IsRow machine) rows → IsTable machine (headings csv_fields ∷ rows)

abbrev pub AreTables : Machine → DataDir → Type 0
AreTables machine dir =
    (p : FilePath) → directory_of p ≡ codes "rawdata" → IsTable machine (lines_of p dir)

-- What is written for a row: a new file gets the heading first.
abbrev pub with_heading : List Line → Line → List Line
with_heading [] line = headings csv_fields ∷ line ∷ []
with_heading (first ∷ rest) line = line ∷ []

heading_test :
    (lines : List Line) (line : Line)
    → (if is_none lines then headings csv_fields ∷ line ∷ [] else line ∷ [])
      ≡ with_heading lines line
heading_test [] line = refl
heading_test (first ∷ rest) line = refl

module _ (machine : Machine) where
  abbrev pub line_of : RawDataEvent → Line
  line_of event = row (columns machine event (sounds event.packet.sound))

  path_for-directory :
      (event : RawDataEvent) (p : FilePath)
      → path_for machine event ≡ ok p
      → directory_of p ≡ codes "rawdata"
  unfolding path_for
  path_for-directory event p h =
      let (mac, _, e) = >>=-eq-ok (normalize_mac event.mac) _ h in
      ap directory_of (sym (ok-injective _ _ e)) ∙ directory_of-append _ _ _ _ _

  alert_path_for-directory :
      (event : AlertEvent) (p : FilePath)
      → alert_path_for machine event ≡ ok p
      → directory_of p ≡ codes "debugstr"
  unfolding alert_path_for
  alert_path_for-directory event p h =
      let (mac, _, e) = >>=-eq-ok (normalize_mac event.mac) _ h in
      ap directory_of (sym (ok-injective _ _ e)) ∙ directory_of-append _ _ _ _ _

  -- The file that an event is written to, and what is written.
  pub write_event-eq-ok :
      (event : RawDataEvent) (dir dir' : DataDir)
      → write_event machine event dir ≡ ok dir'
      → (p : FilePath) × (path_for machine event ≡ ok p)
        × (dir' ≡ append_lines p (with_heading (lines_of p dir) (line_of event)) dir)
  unfolding write_event is_new
  write_event-eq-ok event dir dir' h =
      let (p, e, done) = >>=-eq-ok (path_for machine event) _ h in
      (
        p,
        e,
        sym (ok-injective _ _ done)
            ∙ ap (λ (new : List Line). append_lines p new dir)
                (heading_test (lines_of p dir) (row (cells_of (row_for machine event)))
                  ∙ ap (λ (cells : List Cell). with_heading (lines_of p dir) (row cells))
                      (row_for_lem machine event).1),
      )

  IsTable-row :
      (lines : List Line) (line : Line)
      → IsRow machine line
      → IsTable machine lines
      → IsTable machine (lines ++ with_heading lines line)
  IsTable-row _ line h empty = table (line ∷ []) (h, tt)
  IsTable-row _ line h (table rows hs) =
      table (rows ++ line ∷ []) (All-append (IsRow machine) rows (line ∷ []) hs (h, tt))

  write_event-AreTables :
      (event : RawDataEvent) (dir dir' : DataDir)
      → write_event machine event dir ≡ ok dir'
      → AreTables machine dir
      → AreTables machine dir'
  write_event-AreTables event dir dir' h t q place =
      let (p, _, e) = write_event-eq-ok event dir dir' h in
      let new = with_heading (lines_of p dir) (line_of event) in
      rw (e, lines_of-append_lines p q new dir)
        (elim (Bool-cases (path_eq p q)) [
          | inl same ↦
              rw (same, (path_eq_iff p q).0 same)
                (IsTable-row (lines_of q dir) (line_of event) (event, refl) (t q place))
          | inr other ↦ rw other (t q place)
        ])

  write_alert-AreTables :
      (event : AlertEvent) (dir dir' : DataDir)
      → write_alert machine event dir ≡ ok dir'
      → AreTables machine dir
      → AreTables machine dir'
  unfolding write_alert
  write_alert-AreTables event dir dir' h t q place =
      let (p, e, made) = >>=-eq-ok (alert_path_for machine event) _ h in
      let (line, _, checked) = >>=-eq-ok (alert_line_for machine event) _ made in
      let (_, _, done) = >>=-eq-ok (require (is_encodable line) unencodable) _ checked in
      let there = alert_path_for-directory event p e in
      elim (Bool-cases (path_eq p q)) [
        | inl same ↦
            absurd
              (debugstr-rawdata (sym there ∙ ap directory_of ((path_eq_iff p q).0 same) ∙ place))
        | inr other ↦
            rw (sym (ok-injective _ _ done), lines_of-append_lines p q _ dir, other) (t q place)
      ]
    where
      debugstr-rawdata : codes "debugstr" ≡ codes "rawdata" → ⊥
      debugstr-rawdata h = cc

  -- However events are written to a directory whose rawdata files are tables, they are afterwards: each
  -- is empty, or has the heading once, at its top, and under it only rows, with a cell for each field.
  pub write_all-AreTables :
      (events : List Logged) (dir dir' : DataDir)
      → write_all machine events dir ≡ ok dir'
      → AreTables machine dir
      → AreTables machine dir'
  unfolding write_all write
  write_all-AreTables [] dir dir' h t = rw (sym (ok-injective _ _ h)) t
  write_all-AreTables (raw event ∷ events) dir dir' h t =
      let (mid, e, rest) = >>=-eq-ok (write_event machine event dir) _ h in
      write_all-AreTables events mid dir' rest (write_event-AreTables event dir mid e t)
  write_all-AreTables (alerted event ∷ events) dir dir' h t =
      let (mid, e, rest) = >>=-eq-ok (write_alert machine event dir) _ h in
      write_all-AreTables events mid dir' rest (write_alert-AreTables event dir mid e t)
