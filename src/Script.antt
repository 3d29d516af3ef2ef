-- ===== src/Script.antt =====
-- ble_nus_central.py, the reader of a single device: which device it takes, the lines that its notify
-- handler logs for the frames, and its loop. What the adapter finds and sends is an argument; the log
-- lines of the search and of the connection are left out.
pub mod Loop
pub mod Reader
use slimhub_v.Prelude.{
  length, ℕ, Bool, true, false, ◌||◌, if◌then◌else◌, List, [], ◌∷◌, ◌++◌, Text, Bytes, Option, none,
  some, Error, Result, ok, err,
}
use slimhub_v.Protocol.Frame.{ParsedFrame, parse_frame}
use slimhub_v.Protocol.Frame.Describe.{Description, describe_frame}
use slimhub_v.Protocol.Dump.{hex_dump}
use slimhub_v.Protocol.Assembler.{FrameAssembler, push, default_max_frame_len}
use slimhub_v.Daemon.Scan.{Advertised, is_named}

-- A device, or an address to be connected directly.
pub data Peer : Type 0 where
  device : Advertised → Peer
  direct : Text → Peer

unfoldable pub match_name : Text → Advertised → Bool
match_name name advertised =
    is_named name advertised.device_name || is_named name advertised.local_name

-- `find_device_by_filter`: the first device seen that the filter accepts.
unfoldable first_match : Text → List Advertised → Option Peer
unfolding match_name
first_match name [] = none
first_match name (seen ∷ rest) =
    let later = first_match name rest in if match_name name seen then some (device seen) else later

abbrev by_address : Text → Option Advertised → Peer
by_address address none = direct address
by_address address (some seen) = device seen

-- `at_address` is what `find_device_by_address` gives, and `seen` are the devices of a scan.
unfoldable pub find_device_by_name_or_address :
    Text → Option Text → Option Advertised → List Advertised → Option Peer
unfolding first_match
find_device_by_name_or_address name none at_address seen = first_match name seen
find_device_by_name_or_address name (some []) at_address seen = first_match name seen
find_device_by_name_or_address name (some (x ∷ address)) at_address seen =
    some (by_address (x ∷ address) at_address)

-- A line that the handler logs: a chunk with its length, a frame that parses, or one that does not.
pub data Logline : Type 0 where
  received : ℕ → Text → Logline
  parsed : Description → Logline
  parse_error : Error → Text → Logline

abbrev line_for : Bytes → Result ParsedFrame → Logline
line_for bytes (ok frame) = parsed (describe_frame frame)
line_for bytes (err e) = parse_error e (hex_dump bytes)

unfoldable pub lines_for : List Bytes → List Logline
lines_for [] = []
lines_for (bytes ∷ frames) = line_for bytes (parse_frame bytes) ∷ lines_for frames

unfoldable pub handle_notify : FrameAssembler → Bytes → List Logline × FrameAssembler
unfolding lines_for
handle_notify assembler chunk =
    let (frames, assembler') = push assembler chunk in
    (received (length chunk) (hex_dump chunk) ∷ lines_for frames, assembler')

unfoldable pub notify_all : FrameAssembler → List Bytes → List Logline × FrameAssembler
unfolding handle_notify
notify_all a [] = ([], a)
notify_all a (chunk ∷ chunks) =
    let (lines, a') = handle_notify a chunk in
    let (more, a'') = notify_all a' chunks in (lines ++ more, a'')
