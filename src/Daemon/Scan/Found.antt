-- ===== src/Daemon/Scan/Found.antt =====
-- What the scans leave: a sound daemon with a session for each device that was found.
use mathlib.Core.Path.{subst}
use slimhub_v.Prelude.{
  Error, ℕ, ◌≡◌, refl, sym, ap, ◌∙◌, inl, inr, List, [], ◌∷◌, All, Text, some, Result, ok, err,
  Result-cases, >>=-eq-ok, ok-injective,
}
use slimhub_v.Protocol.Mac.{normalize_mac}
use slimhub_v.Config.{ensure, default_device_type}
use slimhub_v.Events.{text_or}
use slimhub_v.Ble.Registry.{get}
use slimhub_v.Ble.Session.{Target}
use slimhub_v.Ble.Central.{ensure_target}
use slimhub_v.Ble.Central.Laws.{get-ensure_target}
use slimhub_v.Daemon.{SlimHubDaemon, start_or_update_session}
use slimhub_v.Daemon.Frames.{IsSound}
use slimhub_v.Daemon.Sessions.{start_or_update_session-IsSound}
use slimhub_v.Daemon.Scan.{
  Advertised, discover_named_devices, left_by_start, start_all, scan_round, scan_loop,
}

-- The address leads to a session.
abbrev pub HasSession : SlimHubDaemon → Text → Type 0
HasSession d address = (session : ℕ) × (get d.central.registry address ≡ ok (some session))

-- An address with a session keeps one.
session_kept :
    (now : ℕ) (target : Target) (d d' : SlimHubDaemon) (address : Text)
    → start_or_update_session now target d ≡ ok d'
    → HasSession d address
    → HasSession d' address
unfolding start_or_update_session
session_kept now target d d' address e (session, found) =
    let (n, _, e1) = >>=-eq-ok (normalize_mac target.address) _ e in
    let ((made, c), ensured, e2) = >>=-eq-ok (ensure_target now target d.central) _ e1 in
    let (_, _, e3) =
      >>=-eq-ok (ensure d.files n (text_or target.name default_device_type) target.name) _ e2 in
    (
      session,
      ap (λ (s : SlimHubDaemon). get s.central.registry address) (sym (ok-injective _ _ e3))
          ∙ get-ensure_target now target d.central c address made session ensured found,
    )

pub start_all-ok :
    (now : ℕ) (target : Target) (targets : List Target) (d d' : SlimHubDaemon)
    → start_or_update_session now target d ≡ ok d'
    → start_all now (target ∷ targets) d ≡ start_all now targets d'
unfolding start_all
start_all-ok now target targets d d' e =
    ap
      (λ (r : Result SlimHubDaemon). elim r as (λ _. SlimHubDaemon) [
        | err x ↦ left_by_start now target d
        | ok b ↦ start_all now targets b
      ])
      e

start_all_keeps :
    (now : ℕ) (targets : List Target) (d : SlimHubDaemon) (address : Text)
    → IsSound d
    → All (λ (t : Target). (n : Text) × (normalize_mac t.address ≡ ok n)) targets
    → HasSession d address
    → HasSession (start_all now targets d) address
unfolding start_all
start_all_keeps now [] d address sound all there = there
start_all_keeps now (target ∷ targets) d address sound ((n, norm), all) there =
    let (d', _, e, sound', _, _, _) = start_or_update_session-IsSound now target n d sound norm in
    rw (start_all-ok now target targets d d' e) (
      start_all_keeps now targets d' address sound' all
        (session_kept now target d d' address e there))

pub start_all-err :
    (now : ℕ) (target : Target) (targets : List Target) (d : SlimHubDaemon) (e : Error)
    → normalize_mac target.address ≡ err e
    → start_all now (target ∷ targets) d ≡ d
unfolding start_all left_by_start start_or_update_session
start_all-err now target targets d e failed =
    ap
      (λ (r : Result SlimHubDaemon). elim r as (λ _. SlimHubDaemon) [
        | err x ↦ left_by_start now target d
        | ok b ↦ start_all now targets b
      ])
      raised
    ∙ rw failed refl
  where
    raised : start_or_update_session now target d ≡ err e
    raised = rw failed refl

-- A daemon after it started or updated the sessions of targets.
pub record IsScanned (targets : List Target) (d d' : SlimHubDaemon) : Type 0 where
  pub sound : IsSound d'
  pub reached : All (λ (t : Target). HasSession d' t.address) targets
  pub same_log : d'.log ≡ d.log
  pub same_estimator : d'.estimator ≡ d.estimator

-- If a sound daemon starts or updates the sessions of targets with accepted addresses, it stays sound,
-- the address of every target leads to a session, and the events logged and the estimator stay the same.
pub start_all-IsScanned :
    (now : ℕ) (targets : List Target) (d : SlimHubDaemon)
    → IsSound d
    → All (λ (t : Target). (n : Text) × (normalize_mac t.address ≡ ok n)) targets
    → IsScanned targets d (start_all now targets d)
unfolding start_all
start_all-IsScanned now [] d sound all = record {
  sound = sound;
  reached = tt;
  same_log = refl;
  same_estimator = refl;
}
start_all-IsScanned now (target ∷ targets) d sound ((n, norm), all) =
    let (d', session, e, sound', found, log, estimator) =
      start_or_update_session-IsSound now target n d sound norm in
    let rest = start_all-IsScanned now targets d' sound' all in
    let here = start_all_keeps now targets d' target.address sound' all (session, found) in
    subst (IsScanned (target ∷ targets) d) (sym (start_all-ok now target targets d d' e)) (record {
      sound = rest.sound;
      reached = (here, rest.reached);
      same_log = rest.same_log ∙ log;
      same_estimator = rest.same_estimator ∙ estimator;
    })

-- Whatever the scans find or raise, a sound daemon stays sound.
pub scan_loop-IsSound :
    (name : Text) (rounds : List (ℕ × Result (List Advertised))) (d : SlimHubDaemon)
    → IsSound d
    → IsSound (scan_loop name rounds d)
unfolding scan_loop scan_round
scan_loop-IsSound name [] d sound = sound
scan_loop-IsSound name ((now, err e) ∷ rounds) d sound = scan_loop-IsSound name rounds d sound
scan_loop-IsSound name ((now, ok devices) ∷ rounds) d sound =
    scan_loop-IsSound name rounds _ (started now (discover_named_devices name devices) d sound)
  where
    started :
        (at : ℕ) (targets : List Target) (b : SlimHubDaemon)
        → IsSound b
        → IsSound (start_all at targets b)
    started at [] b h = h
    started at (target ∷ targets) b h = elim (Result-cases (normalize_mac target.address)) [
      | inr (e, failed) ↦ subst IsSound (sym (start_all-err at target targets b e failed)) h
      | inl (n, norm) ↦
          let (b', _, e, h', _, _, _) = start_or_update_session-IsSound at target n b h norm in
          subst IsSound (sym (start_all-ok at target targets b b' e)) (started at targets b' h')
    ]
