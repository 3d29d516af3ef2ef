-- ===== src/Ble/Task/Invariant.antt =====
-- What holds of a session's task between any two events.
use slimhub_v.Prelude.{
  Result-cases, inl, inr, ℕ, ◌≡◌, refl, ◌≢◌, ◌∙◌, Bool, true, false, List, [], ◌∷◌, arith, Option,
  none, some, Text,
}
use slimhub_v.Ble.Session.{Target, DeviceSession, update_target, enqueue}
use slimhub_v.Events.{CommandEvent}
use slimhub_v.Ble.Session.Updates.{update_target-eq-ok}
use slimhub_v.Ble.Task.{
  Failure, Phase, waiting, connecting, subscribing, serving, unsubscribing, disconnecting, cleaning,
  ended, crashed, SessionTask, wait_for_target_update, finish, clean_up, fail, Answer, returned,
  raised, resume_at, resume, Event, resumes, advertises, stops, queues, drops, works, perform,
  perform_all, created, start_task, updated, worked,
}

-- The phases in which the task has a client.
abbrev pub holds_client : Phase → Bool
holds_client waiting = false
holds_client connecting = false
holds_client ended = false
holds_client _ = true

-- The phases from `connect` to the last `disconnect` of the `try` block.
abbrev pub is_live : Phase → Bool
is_live subscribing = true
is_live serving = true
is_live unsubscribing = true
is_live disconnecting = true
is_live _ = false

abbrev pub is_serving : Phase → Bool
is_serving serving = true
is_serving _ = false

-- A task has a client just in the phases that use one, is marked connected only with a client, runs its
-- command worker just while it serves, waits for no advertisement and notes no device as unavailable
-- while it is live, ends only when it is stopped, and has an error to show for an unavailable device.
pub record IsCoherent (t : SessionTask) : Type 0 where
  pub client : t.has_client ≡ holds_client t.phase
  pub connected : t.session.connected ≡ true → t.has_client ≡ true
  pub worker : t.command_task ≡ is_serving t.phase
  pub live : is_live t.phase ≡ true → t.session.waiting_for_advertisement ≡ false
  pub available : is_live t.phase ≡ true → t.unavailable_logged ≡ false
  pub stopped : t.phase ≡ ended → t.stop_event ≡ true
  pub unavailable : t.unavailable_logged ≡ true → t.session.last_error ≢ none

-- What the code behind the `try` block needs: a client or not, and no worker.
record IsFailed (t : SessionTask) : Type 0 where
  connected : t.session.connected ≡ true → t.has_client ≡ true
  worker : t.command_task ≡ false
  unavailable : t.unavailable_logged ≡ true → t.session.last_error ≢ none

wait-IsCoherent :
    (t : SessionTask)
    → t.has_client ≡ false
    → t.session.connected ≡ false
    → t.command_task ≡ false
    → (t.unavailable_logged ≡ true → t.session.last_error ≢ none)
    → IsCoherent (wait_for_target_update t)
unfolding wait_for_target_update
wait-IsCoherent t a b c h = ground arith

finish-IsCoherent : (t : SessionTask) → IsFailed t → IsCoherent (finish t)
unfolding finish wait_for_target_update
finish-IsCoherent t h = ground arith

clean_up-IsCoherent : (t : SessionTask) → IsFailed t → IsCoherent (clean_up t)
unfolding clean_up finish wait_for_target_update
clean_up-IsCoherent t h = ground arith

fail-IsCoherent :
    (exc : Failure) (t : SessionTask)
    → (t.session.connected ≡ true → t.has_client ≡ true)
    → t.command_task ≡ false
    → IsCoherent (fail exc t)
unfolding fail
fail-IsCoherent exc t h w =
    clean_up-IsCoherent _ (record { connected = h; worker = w; unavailable = λ e n. cc })

failed : (t : SessionTask) → IsCoherent t → t.command_task ≡ false → IsFailed t
failed t h w = record { connected = h.connected; worker = w; unavailable = h.unavailable }

-- A phase other than `serving` has no worker.
idle_worker : (t : SessionTask) → IsCoherent t → is_serving t.phase ≡ false → t.command_task ≡ false
idle_worker t h e = h.worker ∙ e

resume_at-IsCoherent :
    (phase : Phase) (answer : Answer) (t : SessionTask)
    → t.phase ≡ phase
    → IsCoherent t
    → IsCoherent (resume_at phase answer t)
unfolding resume_at
resume_at-IsCoherent waiting answer t e h =
    wait-IsCoherent t (ground arith) (ground arith) (ground arith) h.unavailable
resume_at-IsCoherent connecting (returned is_connected now) t e h = ground arith
resume_at-IsCoherent connecting (raised exc) t e h =
    fail-IsCoherent exc t h.connected (idle_worker t h (rw e refl))
resume_at-IsCoherent subscribing (returned is_connected now) t e h = ground arith
resume_at-IsCoherent subscribing (raised exc) t e h =
    fail-IsCoherent exc t h.connected (idle_worker t h (rw e refl))
resume_at-IsCoherent serving answer t e h = ground arith
resume_at-IsCoherent unsubscribing (returned is_connected now) t e h = ground arith
resume_at-IsCoherent unsubscribing (raised exc) t e h =
    ground (arith, fail-IsCoherent exc t h.connected (idle_worker t h (rw e refl)))
resume_at-IsCoherent disconnecting (returned is_connected now) t e h =
    clean_up-IsCoherent t (failed t h (idle_worker t h (rw e refl)))
resume_at-IsCoherent disconnecting (raised exc) t e h = ground (
  arith,
  fail-IsCoherent exc t h.connected (idle_worker t h (rw e refl)),
  clean_up-IsCoherent t (failed t h (idle_worker t h (rw e refl))),
)
resume_at-IsCoherent cleaning (returned is_connected now) t e h =
    finish-IsCoherent t (failed t h (idle_worker t h (rw e refl)))
resume_at-IsCoherent cleaning (raised exc) t e h =
    ground (arith, finish-IsCoherent t (failed t h (idle_worker t h (rw e refl))))
resume_at-IsCoherent ended answer t e h = h
resume_at-IsCoherent crashed answer t e h = h

updated-IsCoherent :
    (now : ℕ) (target : Target) (t : SessionTask)
    → IsCoherent t
    → IsCoherent (updated t (update_target now target t.session))
updated-IsCoherent now target t h = elim (Result-cases (update_target now target t.session)) [
  | inr (e, failed) ↦ rw failed h
  | inl (s, e) ↦
      let (n, same) = update_target-eq-ok now target t.session s e in rw (e, same) (ground arith)
]

worked-IsCoherent :
    (t : SessionTask) (failure : Option Text) (queue : List CommandEvent)
    → IsCoherent t
    → IsCoherent (worked failure queue t)
worked-IsCoherent t failure [] h = h
worked-IsCoherent t (some message) (command ∷ queue) h = ground arith
worked-IsCoherent t none (command ∷ queue) h = ground arith

perform-IsCoherent : (event : Event) (t : SessionTask) → IsCoherent t → IsCoherent (perform event t)
unfolding perform enqueue resume
perform-IsCoherent (resumes answer) t h = resume_at-IsCoherent t.phase answer t refl h
perform-IsCoherent (advertises now target) t h = updated-IsCoherent now target t h
perform-IsCoherent stops t h = ground arith
perform-IsCoherent (queues command) t h = ground arith
perform-IsCoherent drops t h = ground arith
perform-IsCoherent (works failure) t h =
    ground (arith, worked-IsCoherent t failure t.session.command_queue h)

perform_all-keeps :
    (events : List Event) (t : SessionTask) → IsCoherent t → IsCoherent (perform_all events t)
unfolding perform_all
perform_all-keeps [] t h = h
perform_all-keeps (event ∷ events) t h =
    perform_all-keeps events (perform event t) (perform-IsCoherent event t h)

-- From the start of the task of a session that is not connected, whatever events happen and in whatever
-- order: the task has a client just in the phases that use one, is marked connected only with a client,
-- runs its command worker just while it serves, waits for no advertisement and notes no device as
-- unavailable while it is live, ends only if it is stopped, and has an error to show whenever the device
-- is noted as unavailable.
pub perform_all-IsCoherent :
    (s : DeviceSession) (events : List Event)
    → s.connected ≡ false
    → IsCoherent (perform_all events (start_task s))
unfolding start_task
perform_all-IsCoherent s events h =
    perform_all-keeps events (start_task s)
      (wait-IsCoherent (created s) refl h refl (λ (e : false ≡ true) n. cc))
