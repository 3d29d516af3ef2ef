-- ===== src/Ble/Notify.antt =====
-- The notify handler of `DeviceSession` (slimhub/ble/device_session.py): a chunk of bytes goes to
-- the frame assembler, and each frame that parses is handed on. The logging of chunks and of
-- rejected frames is left out, and handing a frame on is to add it to the frames in order.
pub mod Streams
use slimhub_v.Prelude.{List, [], ◌∷◌, ◌++◌, Bytes, Result, ok, err}
use slimhub_v.Protocol.Frame.{ParsedFrame, parse_frame}
use slimhub_v.Protocol.Assembler.{FrameAssembler, push}

-- `except PacketParseError: continue`
abbrev pub keep_parsed : Result ParsedFrame → List ParsedFrame → List ParsedFrame
keep_parsed (ok frame) frames = frame ∷ frames
keep_parsed (err e) frames = frames

unfoldable pub parse_all : List Bytes → List ParsedFrame
parse_all [] = []
parse_all (bytes ∷ rest) = keep_parsed (parse_frame bytes) (parse_all rest)

unfoldable pub handle_notify : FrameAssembler → Bytes → List ParsedFrame × FrameAssembler
handle_notify assembler chunk =
    let (frames, assembler') = push assembler chunk in (parse_all frames, assembler')

-- The handler, called for one chunk after the other.
unfoldable pub notify_all : FrameAssembler → List Bytes → List ParsedFrame × FrameAssembler
unfolding handle_notify
notify_all a [] = ([], a)
notify_all a (chunk ∷ chunks) =
    let (frames, a') = handle_notify a chunk in
    let (more, a'') = notify_all a' chunks in (frames ++ more, a'')
