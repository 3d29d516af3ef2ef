-- ===== src/Tests/Files.antt =====
-- The files of the raw logger and of the config store at concrete inputs.
use slimhub_v.Config.{default_device_type}
use slimhub_v.Protocol.Mac.{split}
use slimhub_v.Prelude.{
  text_eq, is_encodable, ◌≡◌, refl, arith, ◌++◌, List, [], ◌∷◌, codes, true, false, none, some, ok,
  ◌>>=◌,
}
use slimhub_v.Prelude.Int.{pos}
use slimhub_v.Protocol.Rawdata.{RawDataPacket}
use slimhub_v.Events.{RawDataEvent}
use slimhub_v.Config.Listing.{IsStored}
use slimhub_v.Logger.{alert_line, Machine, csv_fields, row_for, cells_of, path_for, write_event}
use slimhub_v.Logger.Store.{
  join_path, enter_parts, enter_part, is_part, has_slash, FilePath, Line, DataDir, lines_of,
  lines_in, is_new, append_lines, headings, row,
}
use slimhub_v.Logger.Tables.{empty, AreTables, line_of, write_all-AreTables}
use slimhub_v.Logger.Queue.{
  Logged, raw, Call, logs, works, start, stop, stopped, write, perform_all, perform_all-stop,
  write_all,
}
use slimhub_v.Logger.Lines.{IsSpelled, lines_after}
use slimhub_v.Ble.Notify.{notify_all}
use slimhub_v.Daemon.{SlimHubDaemon, handle_frames}
use slimhub_v.Daemon.Streams.{entries, sent_entries}
use slimhub_v.Daemon.Written.{scheduled, handle_frames_written}
use slimhub_v.Daemon.Report.{tail_raw}
use slimhub_v.Daemon.Report.Tail.{tail_raw-write_event}
use slimhub_v.Tests.Wire.{alert_frame, node, node_mac, node_normal, bytes_below, sent, chunks}
use slimhub_v.Tests.Store.{desk, desk_typed, desk_normal, desk_typed_normal, office, one_file}
use slimhub_v.Ble.Task.{Event, SessionTask}
use slimhub_v.Tests.Tasks.{six_answers, cleaned}
use slimhub_v.Tests.Hub.{idle, idle-IsSound}

-- Every day is the first of January.
abbrev new_year : Machine
new_year = record {
  day = λ t. codes "2026-01-01";
  clock = λ t. codes "2026-01-01 00:00:00";
  loads = λ text. ok none;
  dumps = λ fields. [];
  quoted = λ text. text;
}

abbrev motion : RawDataPacket
motion = record {
  flag_human_presence = 1;
  detected = 1;
  flag_env = 1;
  temperature_c = 2150;
  humidity = 40;
  iaq = 25;
  eco2 = 500;
  bvoc = 1;
  accuracy = 3;
  flag_sound = 0;
  sound = [];
  is_pir_human_detection_event = false;
}

abbrev moved : RawDataEvent
moved = record {
  timestamp = 9;
  mac = desk_typed;
  location = codes "office";
  packet = motion;
  payload = [];
  device_type = [];
}

abbrev pub no_data : DataDir
no_data = record { files = []; writes = 0 }

-- Two events, and the task between them.
abbrev two_logged : List Call
two_logged = logs (raw moved) ∷ works ∷ logs (raw moved) ∷ []

perform_all-stop_example :
    (do l ← perform_all new_year two_logged (start (stopped no_data)); stop new_year l)
    ≡ (do dir ← write_all new_year (raw moved ∷ raw moved ∷ []) no_data; ok (stopped dir))
perform_all-stop_example = perform_all-stop new_year two_logged no_data

abbrev office_day : FilePath
office_day =
    codes "office"
    ∷ codes "DEAN_NODE_V2"
    ∷ desk
    ∷ codes "inference"
    ∷ codes "rawdata"
    ∷ codes "2026-01-01.txt"
    ∷ []

abbrev one_table : DataDir
one_table =
    append_lines office_day (headings csv_fields ∷ row (cells_of (row_for new_year moved)) ∷ [])
      no_data

moved_written : write_event new_year moved no_data ≡ ok one_table
unfolding write_event path_for is_new lines_of lines_in join_path enter_parts enter_part split
    text_eq
moved_written = rw desk_typed_normal refl

moved_all_written : write_all new_year (raw moved ∷ []) no_data ≡ ok one_table
unfolding write_all write
moved_all_written = rw moved_written refl

no_data-AreTables : AreTables new_year no_data
unfolding lines_of lines_in
no_data-AreTables p place = empty

write_all-AreTables_example : AreTables new_year one_table
write_all-AreTables_example =
    write_all-AreTables new_year (raw moved ∷ []) no_data one_table moved_all_written
      no_data-AreTables

office_is_part : is_part (codes "office") ≡ true
unfolding has_slash text_eq
office_is_part = refl

type_is_part : is_part default_device_type ≡ true
unfolding has_slash text_eq
type_is_part = refl

tail_raw-write_event_example :
    (front : List Line) × (tail_raw (some desk) (pos 1) one_table
      ≡ ok (front ++ line_of new_year moved ∷ []))
tail_raw-write_event_example =
    tail_raw-write_event new_year moved no_data one_table desk desk 0 tt office_is_part type_is_part
      moved_written desk_typed_normal desk_normal

pub one_file-IsStored : IsStored one_file
one_file-IsStored =
    ((office, record { normal = desk_normal; typed = refl; located = refl }, refl, refl), tt)

alert-IsSpelled : IsSpelled new_year 5 alert_frame.parsed
unfolding alert_line is_encodable slimhub_v.Logger.strip_right
alert-IsSpelled = (_, refl, refl)

handle_frames_written_example :
    (d' : SlimHubDaemon) × (events : List Logged) × (dir' : DataDir) × (handle_frames 5 node
        (notify_all (record { buffer = []; max_frame_len = 4096 }) chunks).0
        idle
      ≡ ok d')
    × (d'.log ≡ [] ++ events)
    × (entries events ≡ sent_entries 5 sent)
    × ((do
      l ← perform_all new_year (scheduled (true ∷ false ∷ []) events) (start (stopped no_data))
      stop new_year l)
        ≡ ok (stopped dir'))
    × ((p : FilePath) → lines_of p dir' ≡ lines_after new_year p events (lines_of p no_data))
handle_frames_written_example =
    handle_frames_written new_year (true ∷ false ∷ []) no_data 5 4096 node node_mac sent chunks idle
      idle-IsSound (bytes_below, tt) (omega arith, tt) refl (alert-IsSpelled, tt) node_normal

abbrev one_stopped : List (List Event × SessionTask)
one_stopped = (six_answers, cleaned) ∷ []
