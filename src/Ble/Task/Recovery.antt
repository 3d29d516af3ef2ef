-- ===== src/Ble/Task/Recovery.antt =====
-- A task that is neither stopped nor over can always be brought to serve its device.
use mathlib.Core.Path.{subst}
use slimhub_v.Prelude.{
  sym, Bool, Option, some, ℕ, ◌≤◌, replicate, ◌≡◌, refl, ap, true, false, List, ◌∷◌, arith, Text,
  Result, ok,
}
use slimhub_v.Protocol.Mac.{normalize_mac}
use slimhub_v.Ble.Session.{retargeted, Target, DeviceSession}
use slimhub_v.Ble.Session.Updates.{update_target-ok}
use slimhub_v.Ble.Task.{
  Phase, waiting, connecting, subscribing, serving, unsubscribing, disconnecting, cleaning, ended,
  crashed, SessionTask, wait_for_target_update, finish, clean_up, returned, resume_at, resume,
  Event, drops, resumes, advertises, perform, perform_all, updated,
}
use slimhub_v.Ble.Task.Invariant.{IsCoherent, holds_client}
use slimhub_v.Ble.Task.Ending.{is_over}

-- A call that returns, when the client was connected.
abbrev go : ℕ → Event
go now = resumes (returned true now)

-- How many awaited calls have to return from a phase until the task serves with a new client, if an
-- advertisement is at hand and a connection that there was is lost.
abbrev calls_left : Phase → ℕ
calls_left waiting = 3
calls_left connecting = 8
calls_left subscribing = 7
calls_left serving = 6
calls_left unsubscribing = 5
calls_left disconnecting = 4
calls_left cleaning = 3
calls_left ended = 0
calls_left crashed = 0

-- A task that serves a target over a connection that is not lost.
pub record Serves (target : Target) (t : SessionTask) : Type 0 where
  pub phase : t.phase ≡ serving
  pub connected : t.disconnected_event ≡ false
  pub session_target : t.session.target ≡ target
  pub client_target : t.client_target ≡ some target

-- A task that is not stopped, with a target that was updated.
abbrev advertised : Phase → DeviceSession → (lost logged works : Bool) → Option Target → SessionTask
advertised phase s lost logged works client_target = record {
  session = record s { target_updated = true };
  phase = phase;
  stop_event = false;
  disconnected_event = lost;
  unavailable_logged = logged;
  has_client = holds_client phase;
  client_target = client_target;
  command_task = works;
}

serves :
    (now : ℕ) (phase : Phase) (s : DeviceSession) (lost logged works : Bool) (c : Option Target)
    → is_over phase ≡ false
    → Serves s.target (
        perform_all
          (drops ∷ replicate (calls_left phase) (go now))
          (advertised phase s lost logged works c))
unfolding perform_all perform resume resume_at wait_for_target_update finish clean_up
serves now waiting s lost logged works c alive = record {
  phase = refl;
  connected = refl;
  session_target = refl;
  client_target = refl;
}
serves now connecting s lost logged works c alive = record {
  phase = refl;
  connected = refl;
  session_target = refl;
  client_target = refl;
}
serves now subscribing s lost logged works c alive = record {
  phase = refl;
  connected = refl;
  session_target = refl;
  client_target = refl;
}
serves now serving s lost logged works c alive = record {
  phase = refl;
  connected = refl;
  session_target = refl;
  client_target = refl;
}
serves now unsubscribing s lost logged works c alive = record {
  phase = refl;
  connected = refl;
  session_target = refl;
  client_target = refl;
}
serves now disconnecting s lost logged works c alive = record {
  phase = refl;
  connected = refl;
  session_target = refl;
  client_target = refl;
}
serves now cleaning s lost logged works c alive = record {
  phase = refl;
  connected = refl;
  session_target = refl;
  client_target = refl;
}
serves now ended s lost logged works c alive = cc
serves now crashed s lost logged works c alive = cc

calls_left_bound : (phase : Phase) → calls_left phase ≤ 8
calls_left_bound waiting = omega arith
calls_left_bound connecting = omega arith
calls_left_bound subscribing = omega arith
calls_left_bound serving = omega arith
calls_left_bound unsubscribing = omega arith
calls_left_bound disconnecting = omega arith
calls_left_bound cleaning = omega arith
calls_left_bound ended = omega arith
calls_left_bound crashed = omega arith

-- From every coherent state in which the task is neither stopped nor over, an advertisement of the device,
-- the loss of the connection, if there is one, and at most eight awaited calls that return make it serve
-- the advertised target, over a client that was made for this target and whose connection is not lost:
-- neither an earlier failure nor a lost connection keeps it from reconnecting.
pub advertises-serving :
    (now : ℕ) (target : Target) (n : Text) (t : SessionTask)
    → IsCoherent t
    → t.stop_event ≡ false
    → is_over t.phase ≡ false
    → normalize_mac target.address ≡ ok n
    → (k : ℕ) × (k ≤ 8)
      × Serves target (
          perform_all (advertises now target ∷ drops ∷ replicate k (resumes (returned true now))) t)
unfolding perform_all perform
advertises-serving now target n t h running alive norm =
    let s = retargeted now target n t.session in
    let e = update_target-ok now target t.session n norm in
    let same : advertised t.phase s t.disconnected_event t.unavailable_logged t.command_task
          t.client_target
        ≡ record t { session = s } =
      λ i. record t { session = s; stop_event = sym running i; has_client = sym h.client i } in
    let there : Serves target (
        perform_all (drops ∷ replicate (calls_left t.phase) (resumes (returned true now)))
          (record t { session = s })) =
      subst
        (λ (u : SessionTask).
          Serves target
            (perform_all (drops ∷ replicate (calls_left t.phase) (resumes (returned true now))) u))
        same
        (serves now t.phase s t.disconnected_event t.unavailable_logged t.command_task
          t.client_target alive) in
    let calls : List Event = drops ∷ replicate (calls_left t.phase) (resumes (returned true now)) in
    let first : perform_all calls (record t { session = s })
        ≡ perform_all (advertises now target ∷ calls) t =
      sym (ap (λ (r : Result DeviceSession). perform_all calls (updated t r)) e) in
    (calls_left t.phase, calls_left_bound t.phase, subst (Serves target) first there)
