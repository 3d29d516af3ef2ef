-- ===== src/Logger/Store.antt =====
-- The data directory of slimhub/logging/raw_logger.py: files by the parts of their path, each with the
-- lines written to it and the number of its last write, which stands for its modification time.
use Prim.Native.Nat.{ℕ, suc}
use slimhub_v.Prelude.{
  ◌≡◌, ◌↔◌, refl, Bool, true, false, not, ◌&&◌, ◌||◌, ◌==◌, List, [], ◌∷◌, ◌++◌, arith,
  if◌then◌else◌, Text, text_eq, text_eq_iff, codes, inl, inr, Bool-cases,
}
use slimhub_v.Protocol.Mac.{split}

-- The parts of a path below the data directory, with ".." in front for one that leads out of it, and
-- "/" for one from the root.
abbrev pub FilePath : Type 0
FilePath = List Text

-- `front / ".."`, where no directory is a link.
unfoldable pub up : FilePath → FilePath
up [] = codes ".." ∷ []
up (p ∷ []) =
    if text_eq p (codes "..")
    then p ∷ codes ".." ∷ []
    else if text_eq p (codes "/")
    then p ∷ []
    else []
up (p ∷ q ∷ rest) = p ∷ up (q ∷ rest)

unfoldable pub enter_part : FilePath → Text → FilePath
enter_part front part =
    if text_eq part [] || text_eq part (codes ".")
    then front
    else if text_eq part (codes "..")
    then up front
    else front ++ part ∷ []

unfoldable pub enter_parts : FilePath → List Text → FilePath
enter_parts front [] = front
enter_parts front (part ∷ parts) = enter_parts (enter_part front part) parts

abbrev root_or : FilePath → Text → FilePath
root_or front [] = front
root_or front (c ∷ text) = if c == 47 then codes "/" ∷ [] else front

-- `front / text`: each slash starts another part, and a text that starts with one starts at the root.
unfoldable pub join_path : FilePath → Text → FilePath
unfolding enter_parts enter_part up
join_path front text = enter_parts (root_or front text) (split 47 text)

unfoldable pub has_slash : Text → Bool
has_slash [] = false
has_slash (c ∷ text) = let rest = has_slash text in if c == 47 then true else rest

-- Whether a text is the name of one directory.
abbrev pub is_part : Text → Bool
is_part text =
    not (has_slash text)
    && not (text_eq text [] || text_eq text (codes "."))
    && not (text_eq text (codes ".."))

split-part : (text : Text) → has_slash text ≡ false → split 47 text ≡ text ∷ []
unfolding split has_slash
split-part [] h = refl
split-part (c ∷ text) h = elim (Bool-cases (c == 47)) [
  | inl slash ↦ absurd (ground (arith, slash, h))
  | inr other ↦ rw (other, split-part text (rw other at h)) refl
]

root_or-part :
    (front : FilePath) (text : Text) → has_slash text ≡ false → root_or front text ≡ front
unfolding has_slash
root_or-part front [] h = refl
root_or-part front (c ∷ text) h = elim (Bool-cases (c == 47)) [
  | inl slash ↦ absurd (ground (arith, slash, h))
  | inr other ↦ rw other refl
]

-- The name of one directory is one part.
pub join_path-part :
    (front : FilePath) (text : Text)
    → is_part text ≡ true
    → join_path front text ≡ front ++ text ∷ []
unfolding join_path enter_parts enter_part
join_path-part front text h =
    let flat : has_slash text ≡ false = ground (arith, h) in
    let named : (text_eq text [] || text_eq text (codes ".")) ≡ false = ground (arith, h) in
    let below : text_eq text (codes "..") ≡ false = ground (arith, h) in
    rw (split-part text flat, root_or-part front text flat, named, below) refl

unfoldable pub path_eq : FilePath → FilePath → Bool
path_eq [] [] = true
path_eq [] (t ∷ q) = false
path_eq (s ∷ p) [] = false
path_eq (s ∷ p) (t ∷ q) = let rest = path_eq p q in if text_eq s t then rest else false

pub path_eq_iff : (p q : FilePath) → (path_eq p q ≡ true) ↔ (p ≡ q)
unfolding path_eq
path_eq_iff [] [] = ground arith
path_eq_iff [] (t ∷ q) = ground arith
path_eq_iff (s ∷ p) [] = ground arith
path_eq_iff (s ∷ p) (t ∷ q) = ground (arith, text_eq_iff s t, path_eq_iff p q)

-- A value as the csv module writes it: a text, a number, a number of hundredths with two decimals, a
-- number of 256ths.
pub data Cell : Type 0 where
  of_text : Text → Cell
  of_number of_hundredths of_256 : ℕ → Cell
  blank : Cell

pub data Line : Type 0 where
  headings : List Text → Line
  row : List Cell → Line
  note : Text → Line

pub record File : Type 0 where
  pub path : FilePath
  pub lines : List Line
  pub mtime : ℕ

pub record DataDir : Type 0 where
  pub files : List File
  pub writes : ℕ

unfoldable pub lines_in : FilePath → List File → List Line
lines_in p [] = []
lines_in p (f ∷ files) = let rest = lines_in p files in if path_eq f.path p then f.lines else rest

-- `open("a")` and the writes to the file: it is made if it is not there.
unfoldable pub write_in : FilePath → List Line → ℕ → List File → List File
write_in p new now [] = record { path = p; lines = new; mtime = now } ∷ []
write_in p new now (f ∷ files) =
    let rest = write_in p new now files in
    if path_eq f.path p
    then record { path = f.path; lines = f.lines ++ new; mtime = now } ∷ files
    else f ∷ rest

unfoldable pub lines_of : FilePath → DataDir → List Line
unfolding lines_in
lines_of p dir = lines_in p dir.files

unfoldable pub append_lines : FilePath → List Line → DataDir → DataDir
unfolding write_in
append_lines p new dir = record {
  files = write_in p new (suc dir.writes) dir.files;
  writes = suc dir.writes;
}

abbrev pub is_none : List Line → Bool
is_none [] = true
is_none (line ∷ lines) = false

-- `not path.exists() or path.stat().st_size == 0`
unfoldable pub is_new : FilePath → DataDir → Bool
is_new p dir = is_none (lines_of p dir)

lines_in-write_in :
    (p q : FilePath) (new : List Line) (now : ℕ) (files : List File)
    → lines_in q (write_in p new now files)
      ≡ (if path_eq p q then lines_in q files ++ new else lines_in q files)
unfolding lines_in write_in
lines_in-write_in p q new now [] = ground arith
lines_in-write_in p q new now (f ∷ files) = ground (
  arith,
  path_eq_iff p q,
  path_eq_iff f.path p,
  path_eq_iff f.path q,
  lines_in-write_in p q new now files,
)

pub lines_of-append_lines :
    (p q : FilePath) (new : List Line) (dir : DataDir)
    → lines_of q (append_lines p new dir)
      ≡ (if path_eq p q then lines_of q dir ++ new else lines_of q dir)
unfolding lines_of append_lines
lines_of-append_lines p q new dir = lines_in-write_in p q new (suc dir.writes) dir.files
