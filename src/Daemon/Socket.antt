-- ===== src/Daemon/Socket.antt =====
-- `_start_server` and `_stop_server` of slimhub/daemon.py, and what a client finds at the path of the
-- socket: whether there is a file, and whether a server listens at it. A daemon that was killed leaves its
-- file. The limit of a line is that of asyncio's streams.
use slimhub_v.Prelude.{
  ℕ, ◌≤◌, ◌≡◌, refl, arith, leb, length, Bytes, require, ◌>>◌, line_too_long, Bool, true, false,
  if◌then◌else◌, Result, ok, err, not_running, connection_refused,
}

pub record Socket : Type 0 where
  pub file : Bool
  pub server : Bool

abbrev pub closed : Socket
closed = record { file = false; server = false }

abbrev pub stale : Socket
stale = record { file = true; server = false }

abbrev pub served : Socket
served = record { file = true; server = true }

-- `socket_path.unlink()` if there is a file, and `start_unix_server`, which makes one.
unfoldable pub start_server : Socket → Socket
start_server s =
    let cleared = if s.file then record s { file = false } else s in
    record cleared { file = true; server = true }

-- The server is closed, if there is one; a file that is missing is no error.
unfoldable pub stop_server : Socket → Socket
stop_server s =
    let shut = if s.server then record s { server = false } else s in record shut { file = false }

-- `open_unix_connection`
unfoldable pub open_connection : Socket → Result (Unit {0})
open_connection s =
    if s.file then if s.server then ok tt else err connection_refused else err not_running

-- asyncio's limit for a line, without its end, that `readline` reads.
abbrev pub stream_limit : ℕ
stream_limit = 65536

unfoldable pub read_line : Bytes → Result Bytes
read_line line = do require (leb (length line) stream_limit) line_too_long; ok line

pub read_line_ok : (line : Bytes) → length line ≤ stream_limit → read_line line ≡ ok line
unfolding read_line
read_line_ok line fits = let e : leb (length line) stream_limit ≡ true = ground arith in rw e refl

pub start_server-served : (s : Socket) → start_server s ≡ served
unfolding start_server
start_server-served s = ground arith

pub stop_server-closed : (s : Socket) → stop_server s ≡ closed
unfolding stop_server
stop_server-closed s = ground arith
