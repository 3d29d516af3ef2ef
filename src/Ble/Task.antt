-- ===== src/Ble/Task.antt =====
-- The task of a session: `_run`, `_wait_for_target_update`, `stop` and `_is_expected_connect_failure`
-- of slimhub/ble/device_session.py. The coroutine is cut where it waits: a phase says at which wait
-- it stands, and `resume` is the code from there to the next one, given what was awaited. Between two of
-- its pieces other code may change the session; each such change is an event of its own. The adapter
-- lock only delays, and cancellation, which nobody asks for, is left out.
pub mod Invariant
pub mod Ending
pub mod Crash
pub mod Recovery
use slimhub_v.Prelude.{
  ℕ, ◌+◌, Bool, true, false, ◌&&◌, ◌||◌, List, [], ◌∷◌, ◌++◌, map, leb, ◌==◌, if◌then◌else◌, Text,
  codes, text_eq, take, length, Option, none, some, Result, ok, err,
}
use slimhub_v.Events.{CommandEvent}
use slimhub_v.Ble.Session.{Target, DeviceSession, update_target, enqueue}

-- The exceptions that the code tells apart.
pub data Kind : Type 0 where
  timeout_error bleak_error runtime_error attribute_error other_error : Kind

-- An exception, with its text, `str(exc)`.
pub record Failure : Type 0 where
  pub kind : Kind
  pub message : Text

-- `text.lower()` where only ASCII matters: no other character becomes a letter of the two texts that
-- are looked for.
abbrev pub lower : ℕ → ℕ
lower c = if leb b'A' c && leb c b'Z' then c + 32 else c

abbrev pub starts_with : Text → Text → Bool
starts_with prefix text = text_eq (take (length prefix) text) prefix

-- `part in text`
unfoldable pub contains : Text → Text → Bool
unfolding text_eq
contains part [] = starts_with part []
contains part (c ∷ text) = let rest = contains part text in starts_with part (c ∷ text) || rest

abbrev is_unavailable : Text → Bool
is_unavailable message =
    contains (codes "not found") message || contains (codes "not available") message

-- `_is_expected_connect_failure`
unfoldable pub is_expected : Failure → Bool
unfolding contains
is_expected exc = elim exc.kind [
  | timeout_error ↦ true
  | bleak_error ↦ is_unavailable (map lower exc.message)
  | _ ↦ false
]

-- `suppress(BleakError, RuntimeError)`, and with `AttributeError`
abbrev pub is_suppressed : Kind → Bool
is_suppressed bleak_error = true
is_suppressed runtime_error = true
is_suppressed _ = false

abbrev pub is_suppressed_last : Kind → Bool
is_suppressed_last attribute_error = true
is_suppressed_last kind = is_suppressed kind

-- Where the task waits: for an advertisement, `connect`, `start_notify`, the end of the connection,
-- `stop_notify`, `disconnect`, and the `disconnect` of the `finally` block. It ends by its loop's test,
-- or by an exception of the `finally` block.
pub data Phase : Type 0 where
  waiting connecting subscribing serving unsubscribing disconnecting cleaning ended crashed : Phase

-- `client_target` is the target that the last `BleakClient` was made for.
pub record SessionTask : Type 0 where
  pub session : DeviceSession
  pub phase : Phase
  pub stop_event : Bool
  pub disconnected_event : Bool
  pub unavailable_logged : Bool
  pub has_client : Bool
  pub client_target : Option Target
  pub command_task : Bool

abbrev pub when_target_updated : Bool → SessionTask → SessionTask
when_target_updated true t = record t {
  session = record t.session { target_updated = false };
  phase = connecting;
  disconnected_event = false;
  client_target = some t.session.target;
}
when_target_updated false t = record t { phase = waiting }

-- `_wait_for_target_update`, and the loop's test behind it. An update is taken, and the next round
-- starts; with neither event set the task waits.
unfoldable pub wait_for_target_update : SessionTask → SessionTask
wait_for_target_update t =
    if t.stop_event
    then record t { phase = ended }
    else when_target_updated t.session.target_updated t

-- What follows the `finally` block's `disconnect`.
unfoldable pub finish : SessionTask → SessionTask
unfolding wait_for_target_update
finish t =
    let t' = record t { session = record t.session { connected = false }; has_client = false } in
    if t'.stop_event
    then record t' { phase = ended }
    else wait_for_target_update
        (record t' { session = record t'.session { waiting_for_advertisement = true } })

-- The `finally` block up to its `disconnect`.
unfoldable pub clean_up : SessionTask → SessionTask
unfolding finish
clean_up t = if t.has_client then record t { phase = cleaning } else finish t

-- `except Exception as exc`
unfoldable pub fail : Failure → SessionTask → SessionTask
unfolding clean_up
fail exc t = clean_up (record t {
  session = record t.session { last_error = some exc.message };
  unavailable_logged = t.unavailable_logged || is_expected exc;
})

-- What an awaited call did: it returned, when `client.is_connected` and `time.time()` were these, or it
-- raised.
pub data Answer : Type 0 where
  returned : Bool → ℕ → Answer
  raised : Failure → Answer

abbrev pub connected : Bool → SessionTask → SessionTask
connected is_connected t = record t {
  session = record t.session { connected = is_connected; waiting_for_advertisement = false };
  has_client = true;
  unavailable_logged = false;
  phase = subscribing;
}

abbrev pub subscribed : ℕ → SessionTask → SessionTask
subscribed now t = record t {
  session = record t.session { last_error = none; last_seen = now };
  command_task = true;
  phase = serving;
}

unfoldable pub resume_at : Phase → Answer → SessionTask → SessionTask
unfolding wait_for_target_update fail clean_up finish
resume_at waiting answer t = wait_for_target_update t
resume_at connecting (returned is_connected now) t = connected is_connected t
resume_at connecting (raised exc) t = fail exc t
resume_at subscribing (returned is_connected now) t = subscribed now t
resume_at subscribing (raised exc) t = fail exc t
resume_at serving answer t =
    if t.stop_event || t.disconnected_event
    then record t { command_task = false; phase = unsubscribing }
    else t
resume_at unsubscribing (returned is_connected now) t = record t { phase = disconnecting }
resume_at unsubscribing (raised exc) t =
    if is_suppressed exc.kind then record t { phase = disconnecting } else fail exc t
resume_at disconnecting (returned is_connected now) t = clean_up t
resume_at disconnecting (raised exc) t = if is_suppressed exc.kind then clean_up t else fail exc t
resume_at cleaning (returned is_connected now) t = finish t
resume_at cleaning (raised exc) t =
    if is_suppressed_last exc.kind then finish t else record t { phase = crashed }
resume_at ended answer t = t
resume_at crashed answer t = t

unfoldable pub resume : Answer → SessionTask → SessionTask
unfolding resume_at
resume answer t = resume_at t.phase answer t

abbrev updated : SessionTask → Result DeviceSession → SessionTask
updated t (ok s) = record t { session = s }
updated t (err e) = t

abbrev worked : Option Text → List CommandEvent → SessionTask → SessionTask
worked failure [] t = t
worked (some message) (command ∷ queue) t = record t {
  session = record t.session { command_queue = queue; last_error = some message };
}
worked none (command ∷ queue) t = record t { session = record t.session { command_queue = queue } }

abbrev pub is_connecting : Phase → Bool
is_connecting connecting = true
is_connecting _ = false

-- What happens to a session: its task goes on, its target is updated, `stop` and `send_command` are
-- called, the client reports the loss of its connection, and its command worker takes a command, with
-- the text of the exception that this ends in, if any.
pub data Event : Type 0 where
  resumes : Answer → Event
  advertises : ℕ → Target → Event
  stops : Event
  queues : CommandEvent → Event
  drops : Event
  works : Option Text → Event

unfoldable pub perform : Event → SessionTask → SessionTask
unfolding resume
perform (resumes answer) t = resume answer t
perform (advertises now target) t = updated t (update_target now target t.session)
perform stops t = record t { stop_event = true }
perform (queues command) t = record t { session = enqueue command t.session }
perform drops t =
    if is_connecting t.phase || t.has_client then record t { disconnected_event = true } else t
perform (works failure) t = if t.command_task then worked failure t.session.command_queue t else t

unfoldable pub perform_all : List Event → SessionTask → SessionTask
unfolding perform
perform_all [] t = t
perform_all (event ∷ events) t = perform_all events (perform event t)

-- The attributes that a session has before its task runs, and the task that `start` creates.
abbrev pub created : DeviceSession → SessionTask
created s = record {
  session = s;
  phase = waiting;
  stop_event = false;
  disconnected_event = false;
  unavailable_logged = false;
  has_client = false;
  client_target = none;
  command_task = false;
}

unfoldable pub start_task : DeviceSession → SessionTask
unfolding wait_for_target_update
start_task s = wait_for_target_update (created s)
