-- ===== src/Logger.antt =====
-- slimhub/logging/raw_logger.py: `RawDataLogger`, its rows, its paths and its queue. A line of a file is
-- kept as its cells; csv and JSON texts are not spelled out. The texts of a time stamp in the machine's
-- time zone, and the json module, are parameters.
pub mod Store
pub mod Rows
pub mod Queue
pub mod Lines
pub mod Tables
use slimhub_v.Prelude.{
  ℕ, ◌+◌, ◌-◌, Bool, true, false, ◌||◌, ◌&&◌, List, [], ◌∷◌, ◌++◌, map, length, take, replicate,
  leb, ltb, ◌==◌, if◌then◌else◌, Text, codes, Option, none, some, Result, ok, err, ◌>>=◌, ◌>>◌,
  require, is_encodable, unencodable,
}
use slimhub_v.Prelude.Int.{ℤ, pos, negsuc}
use slimhub_v.Prelude.Dict.{Dict, lookup, insert}
use slimhub_v.Protocol.Mac.{normalize_mac}
use slimhub_v.Protocol.Rawdata.{RawDataPacket}
use slimhub_v.Events.{RawDataEvent, AlertEvent, text_or}
use slimhub_v.Config.{default_location, default_device_type}
use slimhub_v.Logger.Store.{
  FilePath, join_path, Cell, of_text, of_number, of_hundredths, of_256, blank, Line, headings, row,
  note, DataDir, append_lines, is_new,
}

abbrev pub sound_classlist : List Text
sound_classlist =
    codes "background"
    ∷ codes "hitting"
    ∷ codes "speech_tv"
    ∷ codes "air_appliances"
    ∷ codes "brushing"
    ∷ codes "peeing"
    ∷ codes "flushing"
    ∷ codes "flush_end"
    ∷ codes "microwave"
    ∷ codes "cooking"
    ∷ codes "watering_low"
    ∷ codes "watering_high"
    ∷ []

abbrev pub csv_fields : List Text
csv_fields =
    codes "time"
    ∷ codes "GridEye"
    ∷ codes "Direction"
    ∷ codes "ENV"
    ∷ codes "temp"
    ∷ codes "humid"
    ∷ codes "iaq"
    ∷ codes "eco2"
    ∷ codes "bvoc"
    ∷ codes "SOUND"
    ∷ sound_classlist

-- The numerator of `(value + 128) / 256` for an int8.
abbrev pub shifted : ℤ → ℕ
shifted (pos n) = n + 128
shifted (negsuc n) = 127 - n

-- The twelve values of `sound`: cut off, or filled up with zeros.
abbrev pub sounds : List ℤ → List ℤ
sounds values =
    take (length sound_classlist) values
    ++ replicate (length sound_classlist - length (take (length sound_classlist) values)) (pos 0)

-- `for label, value in zip(labels, values): row[label] = (value + 128) / 256`
unfoldable pub put_sounds : List Text → List ℤ → Dict Cell → Dict Cell
put_sounds [] values r = r
put_sounds (label ∷ labels) [] r = r
put_sounds (label ∷ labels) (value ∷ values) r =
    put_sounds labels values (insert label (of_256 (shifted value)) r)

-- `rstrip` of the characters that a test accepts
abbrev strip_end : (ℕ → Bool) → ℕ → Text → Text
strip_end p c [] = if p c then [] else c ∷ []
strip_end p c (d ∷ rest) = c ∷ d ∷ rest

unfoldable pub strip_right : (ℕ → Bool) → Text → Text
strip_right p [] = []
strip_right p (c ∷ text) = strip_end p c (strip_right p text)

abbrev is_newline : ℕ → Bool
is_newline c = c == 10

-- `str.isspace`
abbrev is_space : ℕ → Bool
is_space c =
    (leb 9 c && leb c 13)
    || (leb 28 c && leb c 32)
    || c == 0x85
    || c == 0xa0
    || c == 0x1680
    || (leb 0x2000 c && leb c 0x200a)
    || c == 0x2028
    || c == 0x2029
    || c == 0x202f
    || c == 0x205f
    || c == 0x3000

-- What `json.loads` gives: an object, with its values as JSON texts, or another value.
pub data Loaded : Type 0 where
  object : Dict Text → Loaded
  other : Loaded

-- The machine's local time, and the json module. `day` is `strftime("%Y-%m-%d")`, `clock` is
-- `strftime("%Y-%m-%d %H:%M:%S")`; `loads` has none for a JSONDecodeError, and raises anything else (a
-- RecursionError); `dumps` prints an object
-- and `quoted` a text.
pub record Machine : Type 0 where
  pub day : ℕ → Text
  pub clock : ℕ → Text
  pub loads : Text → Result (Option Loaded)
  pub dumps : Dict Text → Text
  pub quoted : Text → Text

-- `DictWriter.writerow`: the cells of the fields, in the order of the heading.
abbrev cell_or : Option Cell → Cell
cell_or none = blank
cell_or (some cell) = cell

abbrev pub cells_of : Dict Cell → List Cell
cells_of r = map (λ (field : Text). cell_or (lookup field r)) csv_fields

module _ (machine : Machine) where
  abbrev event_path : Text → ℕ → Text → Text → Text → Result FilePath
  event_path directory timestamp address location device_type = do
    mac ← normalize_mac address
    ok (
        join_path (join_path [] (text_or location default_location))
          (text_or device_type default_device_type)
        ++ mac ∷ codes "inference" ∷ directory ∷ (machine.day timestamp ++ codes ".txt") ∷ [])

  -- `_path_for`
  unfoldable pub path_for : RawDataEvent → Result FilePath
  path_for event =
      event_path (codes "rawdata") event.timestamp event.mac event.location event.device_type

  unfoldable pub alert_path_for : AlertEvent → Result FilePath
  alert_path_for event =
      event_path (codes "debugstr") event.timestamp event.mac event.location event.device_type

  unfoldable pub row_for : RawDataEvent → Dict Cell
  row_for event =
      let packet = event.packet in
      put_sounds sound_classlist (sounds packet.sound) (
        (codes "time", of_text (machine.clock event.timestamp))
        ∷ (codes "GridEye", of_number packet.flag_human_presence)
        ∷ (codes "Direction", of_number packet.detected)
        ∷ (codes "ENV", of_number packet.flag_env)
        ∷ (codes "temp", of_hundredths packet.temperature_c)
        ∷ (codes "humid", of_number packet.humidity)
        ∷ (codes "iaq", of_number packet.iaq)
        ∷ (codes "eco2", of_number packet.eco2)
        ∷ (codes "bvoc", of_number packet.bvoc)
        ∷ (codes "SOUND", of_number packet.flag_sound)
        ∷ [])

  abbrev loaded_line : Text → Text → Option Loaded → Text
  loaded_line time message none = time ++ (codes "," ++ strip_right is_newline message)
  loaded_line time message (some (object fields)) =
      machine.dumps (insert (codes "timestamp") (machine.quoted time) fields)
  loaded_line time message (some other) = time ++ (codes "," ++ strip_right is_space message)

  -- The line of a message, or what `json.loads` raises besides a JSONDecodeError.
  unfoldable pub alert_line : ℕ → Text → Result Text
  alert_line timestamp message = do
    loaded ← machine.loads message
    ok (loaded_line (machine.clock timestamp) message loaded)

  abbrev pub alert_line_for : AlertEvent → Result Text
  alert_line_for event = alert_line event.timestamp event.packet.message

  unfoldable pub write_event : RawDataEvent → DataDir → Result DataDir
  write_event event dir = do
    path ← path_for event
    let line = row (cells_of (row_for event))
    ok (
        append_lines path (if is_new path dir then headings csv_fields ∷ line ∷ [] else line ∷ [])
          dir)

  unfoldable pub write_alert : AlertEvent → DataDir → Result DataDir
  write_alert event dir = do
    path ← alert_path_for event
    line ← alert_line_for event
    require (is_encodable line) unencodable
    ok (append_lines path (note line ∷ []) dir)
