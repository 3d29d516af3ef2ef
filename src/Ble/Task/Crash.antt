-- ===== src/Ble/Task/Crash.antt =====
-- The way in which a task ends without being stopped: an exception of the last `disconnect`.
use slimhub_v.Prelude.{
  Result-cases, inl, inr, ℕ, ◌≡◌, refl, Bool, false, List, [], ◌∷◌, ◌++◌, arith, append-nil,
  append_assoc,
}
use slimhub_v.Ble.Session.{Target, update_target, enqueue}
use slimhub_v.Events.{CommandEvent}
use slimhub_v.Ble.Session.Updates.{update_target-eq-ok}
use slimhub_v.Ble.Task.{
  is_suppressed_last, Failure, cleaning, crashed, SessionTask, raised, resume_at, resume, Event,
  resumes, advertises, stops, queues, drops, works, perform, perform_all, updated,
}
use slimhub_v.Ble.Task.Invariant.{IsCoherent}

-- A task that is gone, with this mark of the connection and this queue of its session.
record IsGone (marked : Bool) (commands : List CommandEvent) (t : SessionTask) : Type 0 where
  phase : t.phase ≡ crashed
  worker : t.command_task ≡ false
  connected : t.session.connected ≡ marked
  queue : t.session.command_queue ≡ commands

-- The commands that are sent among some events.
abbrev pub commands_of : List Event → List CommandEvent
commands_of [] = []
commands_of (queues command ∷ events) = command ∷ commands_of events
commands_of (resumes answer ∷ events) = commands_of events
commands_of (advertises now target ∷ events) = commands_of events
commands_of (stops ∷ events) = commands_of events
commands_of (drops ∷ events) = commands_of events
commands_of (works failure ∷ events) = commands_of events

updated-IsGone :
    (connected : Bool) (queue : List CommandEvent) (now : ℕ) (target : Target) (t : SessionTask)
    → IsGone connected queue t
    → IsGone connected queue (updated t (update_target now target t.session))
updated-IsGone connected queue now target t h =
    elim (Result-cases (update_target now target t.session)) [
      | inr (e, failed) ↦ rw failed h
      | inl (s, e) ↦
          let (n, same) = update_target-eq-ok now target t.session s e in
          rw (e, same) (ground arith)
    ]

perform-IsGone :
    (connected : Bool) (queue : List CommandEvent) (event : Event) (t : SessionTask)
    → IsGone connected queue t
    → IsGone connected (queue ++ commands_of (event ∷ [])) (perform event t)
unfolding perform resume resume_at enqueue
perform-IsGone connected queue (resumes answer) t h = record {
  phase = ground arith;
  worker = ground arith;
  connected = ground arith;
  queue = ground (arith, append-nil queue);
}
perform-IsGone connected queue (advertises now target) t h =
    rw (append-nil queue) (updated-IsGone connected queue now target t h)
perform-IsGone connected queue stops t h = rw (append-nil queue) (ground arith)
perform-IsGone connected queue (queues command) t h = ground arith
perform-IsGone connected queue drops t h = rw (append-nil queue) (ground arith)
perform-IsGone connected queue (works failure) t h = rw (append-nil queue) (ground arith)

commands_of_cons :
    (event : Event) (events : List Event)
    → commands_of (event ∷ events) ≡ commands_of (event ∷ []) ++ commands_of events
commands_of_cons (resumes answer) events = refl
commands_of_cons (advertises now target) events = refl
commands_of_cons stops events = refl
commands_of_cons (queues command) events = refl
commands_of_cons drops events = refl
commands_of_cons (works failure) events = refl

perform_all-IsGone :
    (connected : Bool) (queue : List CommandEvent) (events : List Event) (t : SessionTask)
    → IsGone connected queue t
    → IsGone connected (queue ++ commands_of events) (perform_all events t)
unfolding perform_all
perform_all-IsGone connected queue [] t h = rw (append-nil queue) h
perform_all-IsGone connected queue (event ∷ events) t h =
    rw (commands_of_cons event events, ← append_assoc)
      (perform_all-IsGone connected (queue ++ commands_of (event ∷ [])) events (perform event t)
        (perform-IsGone connected queue event t h))

-- If the last `disconnect` raises an exception other than a BleakError, a RuntimeError or an
-- AttributeError, the task is gone for good, although it was not stopped: whatever happens from then
-- on, advertisements of the device included, its session is marked connected just if it was before, and
-- every command that is sent to it stays in its queue.
pub cleaning-crashed :
    (exc : Failure) (events : List Event) (t : SessionTask)
    → IsCoherent t
    → t.phase ≡ cleaning
    → is_suppressed_last exc.kind ≡ false
    → let u = perform_all events (perform (resumes (raised exc)) t) in
      (u.phase ≡ crashed)
      × (u.session.connected ≡ t.session.connected)
      × (u.session.command_queue ≡ t.session.command_queue ++ commands_of events)
unfolding perform resume resume_at
cleaning-crashed exc events t h e other =
    let u : SessionTask = perform (resumes (raised exc)) t in
    let gone : IsGone t.session.connected t.session.command_queue u =
      (let w = h.worker in ground arith) in
    let all = perform_all-IsGone t.session.connected t.session.command_queue events u gone in
    (all.phase, all.connected, all.queue)
