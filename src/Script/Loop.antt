-- ===== src/Script/Loop.antt =====
-- `run` and `wait_or_stop` of ble_nus_central.py. The coroutine is cut where it waits: a place says at
-- which wait it stands, and `resume` is the code from there to the next one, given how the awaited call
-- ended. What happens between two of its pieces is an event. The cancellation of the task and the log
-- lines of the connection are left out.
pub mod Ending
pub mod Lines
use slimhub_v.Prelude.{
  Bool, true, false, ◌||◌, if◌then◌else◌, List, [], ◌∷◌, ◌++◌, Bytes, Option, none, some,
}
use slimhub_v.Protocol.Assembler.{FrameAssembler, default_max_frame_len}
use slimhub_v.Script.{Peer, Logline, handle_notify}

-- Where it waits: for the device, `BleakClient`'s connection, `start_notify`, one of the two events,
-- `stop_notify`, the disconnection at the end of the `async with`, and `wait_or_stop`. It ends by its
-- loop's test, or by an exception of the search, which is outside of the `try`.
pub data Place : Type 0 where
  looking connecting subscribing reading unsubscribing leaving pausing ended crashed : Place

pub record Central : Type 0 where
  pub place : Place
  pub stop_event : Bool
  pub disconnected_event : Bool
  pub assembler : FrameAssembler
  pub lines : List Logline

abbrev pub new_assembler : FrameAssembler
new_assembler = record { buffer = []; max_frame_len = default_max_frame_len }

abbrev pub started : Central
started = record {
  place = looking;
  stop_event = false;
  disconnected_event = false;
  assembler = new_assembler;
  lines = [];
}

-- How the awaited call ended; what it gave counts for the search only.
pub data Answer : Type 0 where
  returned : Option Peer → Answer
  raised : Answer

-- The loop's test.
unfoldable pub next_round : Central → Central
next_round c = if c.stop_event then record c { place = ended } else record c { place = looking }

-- What follows the `try` statement.
unfoldable pub after_session : Central → Central
unfolding next_round
after_session c = if c.stop_event then next_round c else record c { place = pausing }

abbrev search_ended : Answer → Central → Central
search_ended (returned none) c = record c { place = pausing }
search_ended (returned (some peer)) c = record c { place = connecting; disconnected_event = false }
search_ended raised c = record c { place = crashed }

abbrev connection_ended : Answer → Central → Central
connection_ended (returned peer) c = record c { place = subscribing; assembler = new_assembler }
connection_ended raised c = after_session c

abbrev subscription_ended : Answer → Central → Central
subscription_ended (returned peer) c = record c { place = reading }
subscription_ended raised c = record c { place = leaving }

-- `asyncio.wait` goes on when one of the two events is set. An exception of `stop_notify` is suppressed
-- or ends the `async with`, which disconnects either way.
unfoldable pub resume_at : Place → Answer → Central → Central
unfolding next_round after_session
resume_at looking answer c = search_ended answer c
resume_at connecting answer c = connection_ended answer c
resume_at subscribing answer c = subscription_ended answer c
resume_at reading answer c =
    if c.stop_event || c.disconnected_event then record c { place = unsubscribing } else c
resume_at unsubscribing answer c = record c { place = leaving }
resume_at leaving answer c = after_session c
resume_at pausing answer c = next_round c
resume_at ended answer c = c
resume_at crashed answer c = c

-- The handler is given to the client with `start_notify`, and dropped with the connection.
abbrev pub is_notified : Place → Bool
is_notified subscribing = true
is_notified reading = true
is_notified unsubscribing = true
is_notified _ = false

unfoldable pub notify : Bytes → Central → Central
notify chunk c =
    if is_notified c.place
    then (let (lines, assembler) = handle_notify c.assembler chunk in
        record c { assembler = assembler; lines = c.lines ++ lines })
    else c

-- `request_shutdown` and `on_disconnect`; the latter sets the event of the current round, whichever
-- client calls it.
pub data Event : Type 0 where
  resumes : Answer → Event
  notifies : Bytes → Event
  shuts_down disconnects : Event

unfoldable pub perform : Event → Central → Central
unfolding resume_at notify
perform (resumes answer) c = resume_at c.place answer c
perform (notifies chunk) c = notify chunk c
perform shuts_down c = record c { stop_event = true }
perform disconnects c = record c { disconnected_event = true }

unfoldable pub perform_all : List Event → Central → Central
unfolding perform
perform_all [] c = c
perform_all (event ∷ events) c = perform_all events (perform event c)
