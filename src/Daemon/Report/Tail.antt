-- ===== src/Daemon/Report/Tail.antt =====
-- `raw.tail` against the raw logger: what was just logged is what it shows.
use slimhub_v.Prelude.{
  ℕ, suc, ◌-◌, ◌≤◌, ◌<◌, ◌≡◌, refl, sym, ap, ◌∙◌, inl, inr, Bool, true, false, Bool-cases, List, [],
  ◌∷◌, ◌++◌, arith, leb, if◌then◌else◌, length, length-append, filter, filter-append, drop,
  drop-append, drop-append_le, All, Text, codes, text_eq, text_eq_refl, some, ok, ok-injective,
  >>=-eq-ok,
}
use slimhub_v.Prelude.Int.{ℤ, pos}
use slimhub_v.Protocol.Mac.{normalize_mac}
use slimhub_v.Events.{RawDataEvent, text_or}
use slimhub_v.Config.{default_location, default_device_type}
use slimhub_v.Logger.{Machine, path_for, write_event}
use slimhub_v.Logger.Store.{
  FilePath, join_path, is_part, join_path-part, path_eq, path_eq_iff, Line, File, DataDir, lines_in,
  write_in, lines_of, append_lines,
}
use slimhub_v.Logger.Tables.{with_heading, line_of, write_event-eq-ok}
use slimhub_v.Daemon.Report.{matches, raw_files, latest, last_lines, tail_of, tail_raw, ends_with}

-- No file was written later than the last write.
abbrev pub IsTimed : DataDir → Type 0
IsTimed dir = All (λ (f : File). f.mtime ≤ dir.writes) dir.files

-- Files of which one is the latest.
record HasLatest (now : ℕ) (g : File) (files : List File) : Type 0 where
  before : List File
  after : List File
  parts : files ≡ before ++ g ∷ after
  earlier : All (λ (f : File). f.mtime < now) before
  others : All (λ (f : File). f.mtime < now) after

latest_kept :
    (g : File) (files : List File)
    → All (λ (f : File). f.mtime < g.mtime) files
    → latest g files ≡ g
unfolding latest
latest_kept g [] h = refl
latest_kept g (f ∷ files) (hf, h) =
    let e : leb g.mtime f.mtime ≡ false = ground arith in rw e (latest_kept g files h)

latest_found :
    (f g : File) (before after : List File)
    → f.mtime < g.mtime
    → All (λ (f : File). f.mtime < g.mtime) before
    → latest f (before ++ g ∷ after) ≡ latest g after
unfolding latest
latest_found f g [] after hf h =
    let e : leb f.mtime g.mtime ≡ true = ground arith in
    ap (λ (b : Bool). latest (if b then g else f) after) e
latest_found f g (k ∷ before) after hf (hk, h) = elim (Bool-cases (leb f.mtime k.mtime)) [
  | inl newer ↦
      ap (λ (b : Bool). latest (if b then k else f) (before ++ g ∷ after)) newer
      ∙ latest_found k g before after hk h
  | inr older ↦
      ap (λ (b : Bool). latest (if b then k else f) (before ++ g ∷ after)) older
      ∙ latest_found f g before after hf h
]

tail_of-latest :
    (n : ℤ) (g : File) (files : List File)
    → HasLatest g.mtime g files
    → tail_of n files ≡ last_lines n g.lines
tail_of-latest n g files h = ap (tail_of n) h.parts ∙ at h.before h.earlier
  where
    at :
        (before : List File)
        → All (λ (f : File). f.mtime < g.mtime) before
        → tail_of n (before ++ g ∷ h.after) ≡ last_lines n g.lines
    at [] earlier = ap (λ (f : File). last_lines n f.lines) (latest_kept g h.after h.others)
    at (f ∷ before) (hf, earlier) =
        ap (λ (f : File). last_lines n f.lines)
          (latest_found f g before h.after hf earlier ∙ latest_kept g h.after h.others)

abbrev written : FilePath → List Line → ℕ → List File → File
written p new now files = record { path = p; lines = lines_in p files ++ new; mtime = now }

write_in-HasLatest :
    (p : FilePath) (new : List Line) (now : ℕ) (files : List File)
    → All (λ (f : File). f.mtime < now) files
    → HasLatest now (written p new now files) (write_in p new now files)
unfolding write_in lines_in
write_in-HasLatest p new now [] h = record {
  before = [];
  after = [];
  parts = refl;
  earlier = tt;
  others = tt;
}
write_in-HasLatest p new now (f ∷ files) (hf, h) =
    let rest = write_in-HasLatest p new now files h in
    elim (Bool-cases (path_eq f.path p)) [
      | inl same ↦ record {
        before = [];
        after = files;
        parts = rw (same, (path_eq_iff f.path p).0 same) refl;
        earlier = tt;
        others = h;
      }
      | inr other ↦ record {
        before = f ∷ rest.before;
        after = rest.after;
        parts = rw other (ap (◌∷◌ f) rest.parts);
        earlier = (hf, rest.earlier);
        others = rest.others;
      }
    ]

filter-All :
    (test : File → Bool) (now : ℕ) (files : List File)
    → All (λ (f : File). f.mtime < now) files
    → All (λ (f : File). f.mtime < now) (filter test files)
filter-All test now [] h = tt
filter-All test now (f ∷ files) (hf, h) = elim (Bool-cases (test f)) [
  | inl kept ↦ rw kept (hf, filter-All test now files h)
  | inr left ↦ rw left (filter-All test now files h)
]

filter-HasLatest :
    (test : File → Bool) (now : ℕ) (g : File) (files : List File)
    → test g ≡ true
    → HasLatest now g files
    → HasLatest now g (filter test files)
filter-HasLatest test now g files kept h = record {
  before = filter test h.before;
  after = filter test h.after;
  parts = ap (filter test) h.parts ∙ filter-append test h.before (g ∷ h.after) ∙ rw kept refl;
  earlier = filter-All test now h.before h.earlier;
  others = filter-All test now h.after h.others;
}

ends_with-append : (name suffix : Text) → ends_with suffix (name ++ suffix) ≡ true
ends_with-append name suffix =
    let e : length (name ++ suffix) - length suffix ≡ length name =
      omega (arith, length-append {0} name suffix) in
    ap (λ (n : ℕ). text_eq (drop n (name ++ suffix)) suffix) e
    ∙ ap (λ (t : Text). text_eq t suffix) (drop-append (length name) name suffix refl)
    ∙ text_eq_refl suffix

-- If its location and type are names of directories, the path of an event is one that the pattern for
-- its address finds.
path-matches :
    (machine : Machine) (event : RawDataEvent) (p : FilePath) (mac : Text)
    → is_part (text_or event.location default_location) ≡ true
    → is_part (text_or event.device_type default_device_type) ≡ true
    → normalize_mac event.mac ≡ ok mac
    → path_for machine event ≡ ok p
    → matches (some mac) p ≡ true
unfolding path_for text_eq
path-matches machine event p mac located typed norm h =
    let (m, e, done) = >>=-eq-ok (normalize_mac event.mac) _ h in
    let same : m ≡ mac = ok-injective _ _ (sym e ∙ norm) in
    let place = text_or event.location default_location in
    let front : join_path (join_path [] place) (text_or event.device_type default_device_type)
        ≡ place ∷ text_or event.device_type default_device_type ∷ [] =
      ap (λ (f : FilePath). join_path f (text_or event.device_type default_device_type))
        (join_path-part [] place located)
      ∙ join_path-part (place ∷ []) (text_or event.device_type default_device_type) typed in
    ap (matches (some mac)) (sym (ok-injective _ _ done))
    ∙ rw
        (
          front,
          same,
          text_eq_refl mac,
          ends_with-append (machine.day event.timestamp) (codes ".txt"),
        )
        refl

later :
    (now : ℕ) (files : List File)
    → All (λ (f : File). f.mtime ≤ now) files
    → All (λ (f : File). f.mtime < suc now) files
later now [] h = tt
later now (f ∷ files) (hf, h) = (omega arith, later now files h)

heading_end :
    (lines : List Line) (line : Line)
    → (front : List Line) × (lines ++ with_heading lines line ≡ front ++ line ∷ [])
heading_end [] line = (slimhub_v.Logger.Store.headings slimhub_v.Logger.csv_fields ∷ [], refl)
heading_end (x ∷ lines) line = (x ∷ lines, refl)

last_lines-append :
    (n : ℕ) (front : List Line) (line : Line)
    → last_lines (pos (suc n)) (front ++ line ∷ []) ≡ drop (length front - n) front ++ line ∷ []
last_lines-append n front line =
    let e : length (front ++ line ∷ []) - suc n ≡ length front - n =
      omega (arith, length-append {0} front (line ∷ [])) in
    ap (λ (k : ℕ). drop k (front ++ line ∷ [])) e
    ∙ drop-append_le (length front - n) front (line ∷ []) (omega arith)

-- If no file has a later time than the last write, and the event's location and type, or the defaults for
-- empty ones, are each the name of one directory, then after the event is written, at a later time than
-- those before, the tail of its device, in any spelling of its address and with at least one line asked
-- for, ends with the row of that event.
pub tail_raw-write_event :
    (machine : Machine) (event : RawDataEvent) (dir dir' : DataDir) (address mac : Text) (n : ℕ)
    → IsTimed dir
    → is_part (text_or event.location default_location) ≡ true
    → is_part (text_or event.device_type default_device_type) ≡ true
    → write_event machine event dir ≡ ok dir'
    → normalize_mac event.mac ≡ ok mac
    → normalize_mac address ≡ ok mac
    → (front : List Line) × (tail_raw (some address) (pos (suc n)) dir'
        ≡ ok (front ++ line_of machine event ∷ []))
unfolding tail_raw raw_files append_lines lines_of
tail_raw-write_event machine event dir dir' address mac n timed located typed h norm asked =
    let (p, path, made) = write_event-eq-ok machine event dir dir' h in
    let new = with_heading (lines_of p dir) (line_of machine event) in
    let now : ℕ = suc dir.writes in
    let g : File = written p new now dir.files in
    let there =
      filter-HasLatest (λ (f : File). matches (some mac) f.path) now g
        (write_in p new now dir.files) (path-matches machine event p mac located typed norm path)
        (write_in-HasLatest p new now dir.files (later dir.writes dir.files timed)) in
    let (front, end) = heading_end (lines_of p dir) (line_of machine event) in
    (
      drop (length front - n) front,
      rw (asked, made)
          (ap ok (
            tail_of-latest (pos (suc n)) g
              (filter (λ (f : File). matches (some mac) f.path) (write_in p new now dir.files))
              there
            ∙ ap (last_lines (pos (suc n))) end
            ∙ last_lines-append n front (line_of machine event))),
    )
