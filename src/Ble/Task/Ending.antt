-- ===== src/Ble/Task/Ending.antt =====
-- A task that is stopped ends, and the way in which one can end without being stopped.
use slimhub_v.Prelude.{
  ℕ, suc, ◌+◌, ◌≤◌, ◌≡◌, refl, Bool, true, false, List, [], ◌∷◌, arith, Option, none, some, Result,
  ok, err, Text,
}
use slimhub_v.Ble.Session.{DeviceSession, update_target, enqueue}
use slimhub_v.Events.{CommandEvent}
use slimhub_v.Ble.Task.{
  Failure, Phase, waiting, connecting, subscribing, serving, unsubscribing, disconnecting, cleaning,
  ended, crashed, SessionTask, wait_for_target_update, finish, clean_up, fail, Answer, returned,
  raised, resume_at, resume, Event, resumes, advertises, stops, queues, drops, works, perform,
  perform_all, updated, worked,
}

-- The task has ended, by its loop's test or by an exception.
abbrev pub is_over : Phase → Bool
is_over ended = true
is_over crashed = true
is_over _ = false

-- How many waits there are at most before a stopped task is over.
abbrev rank : Phase → ℕ
rank waiting = 1
rank connecting = 6
rank subscribing = 5
rank serving = 4
rank unsubscribing = 3
rank disconnecting = 2
rank cleaning = 1
rank ended = 0
rank crashed = 0

-- How often the task goes on among some events.
unfoldable pub resumptions : List Event → ℕ
resumptions [] = 0
resumptions (resumes answer ∷ events) = suc (resumptions events)
resumptions (advertises now target ∷ events) = resumptions events
resumptions (stops ∷ events) = resumptions events
resumptions (queues command ∷ events) = resumptions events
resumptions (drops ∷ events) = resumptions events
resumptions (works failure ∷ events) = resumptions events

-- What a piece of the code does to a task that is stopped.
record Nears (k : ℕ) (t : SessionTask) : Type 0 where
  stop_event : t.stop_event ≡ true
  nearer : rank t.phase ≤ k

clean_up-Nears : (t : SessionTask) → t.stop_event ≡ true → Nears 1 (clean_up t)
unfolding clean_up finish
clean_up-Nears t h = ground arith

fail-Nears : (exc : Failure) (t : SessionTask) → t.stop_event ≡ true → Nears 1 (fail exc t)
unfolding fail clean_up finish
fail-Nears exc t h = ground arith

resume_at-Nears :
    (phase : Phase) (answer : Answer) (t : SessionTask) (k : ℕ)
    → t.phase ≡ phase
    → t.stop_event ≡ true
    → rank phase ≤ suc k
    → Nears k (resume_at phase answer t)
unfolding resume_at wait_for_target_update finish
resume_at-Nears waiting answer t k e h le = ground arith
resume_at-Nears connecting (returned is_connected now) t k e h le = ground arith
resume_at-Nears connecting (raised exc) t k e h le = let n = fail-Nears exc t h in ground arith
resume_at-Nears subscribing (returned is_connected now) t k e h le = ground arith
resume_at-Nears subscribing (raised exc) t k e h le = let n = fail-Nears exc t h in ground arith
resume_at-Nears serving answer t k e h le = ground arith
resume_at-Nears unsubscribing (returned is_connected now) t k e h le = ground arith
resume_at-Nears unsubscribing (raised exc) t k e h le = let n = fail-Nears exc t h in ground arith
resume_at-Nears disconnecting (returned is_connected now) t k e h le =
    let n = clean_up-Nears t h in ground arith
resume_at-Nears disconnecting (raised exc) t k e h le =
    let n = fail-Nears exc t h in let m = clean_up-Nears t h in ground arith
resume_at-Nears cleaning (returned is_connected now) t k e h le = ground arith
resume_at-Nears cleaning (raised exc) t k e h le = ground arith
resume_at-Nears ended answer t k e h le = ground arith
resume_at-Nears crashed answer t k e h le = ground arith

worked-Nears :
    (failure : Option Text) (queue : List CommandEvent) (t : SessionTask) (k : ℕ)
    → t.stop_event ≡ true
    → rank t.phase ≤ k
    → Nears k (worked failure queue t)
worked-Nears failure [] t k h le = ground arith
worked-Nears (some message) (command ∷ queue) t k h le = ground arith
worked-Nears none (command ∷ queue) t k h le = ground arith

updated-Nears :
    (r : Result DeviceSession) (t : SessionTask) (k : ℕ)
    → t.stop_event ≡ true
    → rank t.phase ≤ k
    → Nears k (updated t r)
updated-Nears (ok s) t k h le = ground arith
updated-Nears (err e) t k h le = ground arith

perform-Nears :
    (event : Event) (t : SessionTask) (k : ℕ)
    → t.stop_event ≡ true
    → rank t.phase ≤ resumptions (event ∷ []) + k
    → Nears k (perform event t)
unfolding perform resume resumptions enqueue
perform-Nears (resumes answer) t k h le = resume_at-Nears t.phase answer t k refl h (omega arith)
perform-Nears (advertises now target) t k h le =
    updated-Nears (update_target now target t.session) t k h (omega arith)
perform-Nears stops t k h le = ground arith
perform-Nears (queues command) t k h le = ground arith
perform-Nears drops t k h le = ground arith
perform-Nears (works failure) t k h le =
    let n = worked-Nears failure t.session.command_queue t k h (omega arith) in ground arith

resumptions_cons :
    (event : Event) (events : List Event)
    → resumptions (event ∷ events) ≡ resumptions (event ∷ []) + resumptions events
unfolding resumptions
resumptions_cons (resumes answer) events = omega arith
resumptions_cons (advertises now target) events = omega arith
resumptions_cons stops events = omega arith
resumptions_cons (queues command) events = omega arith
resumptions_cons drops events = omega arith
resumptions_cons (works failure) events = omega arith

perform_all-Nears :
    (events : List Event) (t : SessionTask) (k : ℕ)
    → t.stop_event ≡ true
    → rank t.phase ≤ resumptions events + k
    → Nears k (perform_all events t)
unfolding perform_all
perform_all-Nears [] t k h le = record {
  stop_event = h;
  nearer = unfold resumptions in omega arith;
}
perform_all-Nears (event ∷ events) t k h le =
    let first =
      perform-Nears event t (resumptions events + k) h
        (omega (arith, resumptions_cons event events)) in
    perform_all-Nears events (perform event t) k first.stop_event first.nearer

rank_zero : (phase : Phase) → rank phase ≤ 0 → is_over phase ≡ true
rank_zero ended h = refl
rank_zero crashed h = refl
rank_zero waiting h = absurd (omega arith)
rank_zero connecting h = absurd (omega arith)
rank_zero subscribing h = absurd (omega arith)
rank_zero serving h = absurd (omega arith)
rank_zero unsubscribing h = absurd (omega arith)
rank_zero disconnecting h = absurd (omega arith)
rank_zero cleaning h = absurd (omega arith)

rank_bound : (phase : Phase) → rank phase ≤ 6
rank_bound waiting = omega arith
rank_bound connecting = omega arith
rank_bound subscribing = omega arith
rank_bound serving = omega arith
rank_bound unsubscribing = omega arith
rank_bound disconnecting = omega arith
rank_bound cleaning = omega arith
rank_bound ended = omega arith
rank_bound crashed = omega arith

-- Once `stop` is called, a task is over after it has gone on six times, whatever the awaited calls did
-- and whatever else happened to the session before, between and after.
pub stops-is_over :
    (before after : List Event) (t : SessionTask)
    → 6 ≤ resumptions after
    → is_over (perform_all after (perform stops (perform_all before t))).phase ≡ true
unfolding perform
stops-is_over before after t enough =
    let u : SessionTask = perform stops (perform_all before t) in
    rank_zero (perform_all after u).phase
      (perform_all-Nears after u 0 refl
        (omega (arith, rank_bound (perform_all before t).phase))).nearer
