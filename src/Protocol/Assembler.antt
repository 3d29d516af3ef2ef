-- ===== src/Protocol/Assembler.antt =====
-- `FrameAssembler` of slimhub/protocol/nus.py. The `while` loop of `push` runs on fuel; each round
-- that goes on takes a byte at least from the buffer, so its length is fuel enough.
pub mod Loop
pub mod Chunks
pub mod Streams
use slimhub_v.Prelude.{
  ℕ, zero, suc, ◌+◌, List, [], ◌∷◌, ◌++◌, ltb, if◌then◌else◌, length, take, drop, slice, Bytes,
}
use slimhub_v.Protocol.Mac.{mac_len}
use slimhub_v.Protocol.Frame.{packet_type_len, header_len, end_flag_len, from_le}

abbrev pub default_max_frame_len : ℕ
default_max_frame_len = 4096

pub record FrameAssembler : Type 0 where
  pub buffer : Bytes
  pub max_frame_len : ℕ

-- What a round does: end the loop, drop one byte to find a frame again, or take a frame.
pub data Action : Type 0 where
  stop : Action
  skip : Action
  emit : ℕ → Action

unfoldable pub examine : ℕ → Bytes → Action
unfolding from_le
examine max_frame_len buffer =
    let packet_length = from_le (slice (mac_len + packet_type_len) header_len buffer) in
    let frame_len = header_len + packet_length + end_flag_len in
    if ltb (length buffer) (header_len + end_flag_len)
    then stop
    else if ltb max_frame_len frame_len
    then skip
    else if ltb (length buffer) frame_len
    then stop
    else emit frame_len

-- The loop: the frames that it takes, in order, and what stays in the buffer.
unfoldable pub drain : ℕ → ℕ → Bytes → List Bytes × Bytes
drain zero max_frame_len buffer = ([], buffer)
drain (suc fuel) max_frame_len buffer = elim (examine max_frame_len buffer) [
  | stop ↦ ([], buffer)
  | skip ↦ drain fuel max_frame_len (drop 1 buffer)
  | emit n ↦
      let (frames, rest) = drain fuel max_frame_len (drop n buffer) in
      (take n buffer ∷ frames, rest)
]

unfoldable pub drained : ℕ → Bytes → List Bytes × Bytes
unfolding drain
drained max_frame_len buffer = drain (length buffer) max_frame_len buffer

unfoldable pub push : FrameAssembler → Bytes → List Bytes × FrameAssembler
unfolding drained
push a chunk =
    let (frames, rest) = drained a.max_frame_len (a.buffer ++ chunk) in
    (frames, record a { buffer = rest })

unfoldable pub clear : FrameAssembler → FrameAssembler
clear a = record a { buffer = [] }

-- One `push` after the other, as the notify handler makes them.
unfoldable pub push_all : FrameAssembler → List Bytes → List Bytes × FrameAssembler
unfolding push
push_all a [] = ([], a)
push_all a (chunk ∷ chunks) =
    let (frames, a') = push a chunk in let (more, a'') = push_all a' chunks in (frames ++ more, a'')
