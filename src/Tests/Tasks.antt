-- ===== src/Tests/Tasks.antt =====
-- The task of a session at concrete inputs.
use slimhub_v.Prelude.{◌≡◌, refl, ◌≤◌, arith, List, [], ◌∷◌, ℕ, replicate, codes, true, false}
use slimhub_v.Events.{CommandEvent}
use slimhub_v.Unitspace.{command_event}
use slimhub_v.Protocol.Command.{strong_enter}
use slimhub_v.Ble.Task.{
  Failure, other_error, SessionTask, cleaning, crashed, Event, resumes, returned, raised,
  advertises, stops, queues, drops, perform, perform_all, start_task, created,
}
use slimhub_v.Ble.Task.Invariant.{IsCoherent, perform_all-IsCoherent}
use slimhub_v.Ble.Task.Ending.{is_over, stops-is_over, resumptions}
use slimhub_v.Ble.Task.Crash.{cleaning-crashed}
use slimhub_v.Ble.Task.Recovery.{Serves, advertises-serving}
use slimhub_v.Tests.Store.{desk, desk_typed_normal, at_desk, desk_session}

-- The connection is made, is lost, and is made again.
abbrev reconnection : List Event
reconnection =
    resumes (returned true 1)
    ∷ resumes (returned true 2)
    ∷ drops
    ∷ resumes (returned true 3)
    ∷ advertises 4 at_desk
    ∷ []

perform_all-IsCoherent_example : IsCoherent (perform_all reconnection (start_task desk_session))
perform_all-IsCoherent_example = perform_all-IsCoherent desk_session reconnection refl

abbrev pub six_answers : List Event
six_answers = replicate 6 (resumes (returned true 5))

stops-is_over_example :
    is_over
      (perform_all six_answers
        (perform stops (perform_all reconnection (created desk_session)))).phase
    ≡ true
unfolding resumptions
stops-is_over_example = stops-is_over reconnection six_answers (created desk_session) (omega arith)

-- A session whose connection is cleaned up.
abbrev pub cleaned : SessionTask
cleaned = record (created desk_session) { phase = cleaning; has_client = true }

cleaned-IsCoherent : IsCoherent cleaned
cleaned-IsCoherent = record {
  client = refl;
  connected = λ h. refl;
  worker = refl;
  live = λ h. refl;
  available = λ h. refl;
  stopped = λ h. cc;
  unavailable = λ h. cc;
}

abbrev broken_pipe : Failure
broken_pipe = record { kind = other_error; message = codes "[Errno 32] Broken pipe" }

abbrev enters : CommandEvent
enters = command_event desk strong_enter (codes "office")

abbrev afterwards : List Event
afterwards = advertises 6 at_desk ∷ queues enters ∷ []

cleaning-crashed_example :
    let u = perform_all afterwards (perform (resumes (raised broken_pipe)) cleaned) in
    (u.phase ≡ crashed) × (u.session.connected ≡ false) × (u.session.command_queue ≡ enters ∷ [])
cleaning-crashed_example =
    cleaning-crashed broken_pipe afterwards cleaned cleaned-IsCoherent refl refl

advertises-serving_example :
    (k : ℕ) × (k ≤ 8)
    × Serves at_desk (
        perform_all
          (advertises 7 at_desk ∷ drops ∷ replicate k (resumes (returned true 7)))
          cleaned)
advertises-serving_example =
    advertises-serving 7 at_desk desk cleaned cleaned-IsCoherent refl refl desk_typed_normal
