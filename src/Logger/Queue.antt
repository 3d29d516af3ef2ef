-- ===== src/Logger/Queue.antt =====
-- The queue of `RawDataLogger` and the task that empties it: `start`, `stop`, `log`, `log_alert`, `_run`.
-- A write that fails ends the task, and here the run.
use mathlib.Core.List.{map-append}
use slimhub_v.Prelude.{
  ◌≡◌, refl, sym, ap, ◌∙◌, inl, inr, Bool, true, false, List, [], ◌∷◌, ◌++◌, append_assoc,
  append-nil, map, if◌then◌else◌, Option, none, some, Result, ok, ◌>>=◌, Result-cases,
}
use slimhub_v.Events.{RawDataEvent, AlertEvent}
use slimhub_v.Logger.{Machine, write_event, write_alert}
use slimhub_v.Logger.Store.{DataDir}

-- What is logged. The queue holds such events, and none, which ends the task.
pub data Logged : Type 0 where
  raw : RawDataEvent → Logged
  alerted : AlertEvent → Logged

pub record RawDataLogger : Type 0 where
  pub queue : List (Option Logged)
  pub running : Bool
  pub dir : DataDir

-- An event that is logged, or one round of the task.
pub data Call : Type 0 where
  logs : Logged → Call
  works : Call

abbrev pub logged : List Call → List Logged
logged [] = []
logged (logs event ∷ calls) = event ∷ logged calls
logged (works ∷ calls) = logged calls

unfoldable pub start : RawDataLogger → RawDataLogger
start l = record l { running = true }

abbrev pub stopped : DataDir → RawDataLogger
stopped dir = record { queue = []; running = false; dir = dir }

abbrev at_work : List Logged → DataDir → RawDataLogger
at_work queue dir = record { queue = map some queue; running = true; dir = dir }

module _ (machine : Machine) where
  unfoldable pub write : Logged → DataDir → Result DataDir
  write (raw event) dir = write_event machine event dir
  write (alerted event) dir = write_alert machine event dir

  -- `log` and `log_alert`
  unfoldable pub log : Logged → RawDataLogger → Result RawDataLogger
  log event l =
      if l.running
      then ok (record l { queue = l.queue ++ some event ∷ [] })
      else (do dir ← write event l.dir; ok (record l { dir = dir }))

  abbrev pub take_next : List (Option Logged) → RawDataLogger → Result RawDataLogger
  take_next [] l = ok l
  take_next (none ∷ queue) l = ok (record l { queue = queue; running = false })
  take_next (some event ∷ queue) l = do
    dir ← write event l.dir
    ok (record l { queue = queue; dir = dir })

  -- One round of `_run`; with an empty queue it waits.
  unfoldable pub work : RawDataLogger → Result RawDataLogger
  work l = if l.running then take_next l.queue l else ok l

  -- `_run` until it returns
  unfoldable pub run : List (Option Logged) → DataDir → Result (List (Option Logged) × DataDir)
  run [] dir = ok ([], dir)
  run (none ∷ queue) dir = ok (queue, dir)
  run (some event ∷ queue) dir = do dir' ← write event dir; run queue dir'

  unfoldable pub stop : RawDataLogger → Result RawDataLogger
  stop l =
      if l.running
      then (do
        (queue, dir) ← run (l.queue ++ none ∷ []) l.dir
        ok (record { queue = queue; running = false; dir = dir }))
      else ok l

  unfoldable pub perform : Call → RawDataLogger → Result RawDataLogger
  perform (logs event) l = log event l
  perform works l = work l

  unfoldable pub perform_all : List Call → RawDataLogger → Result RawDataLogger
  perform_all [] l = ok l
  perform_all (call ∷ calls) l = do l' ← perform call l; perform_all calls l'

  -- The reference: every event is written at once.
  unfoldable pub write_all : List Logged → DataDir → Result DataDir
  write_all [] dir = ok dir
  write_all (event ∷ events) dir = do dir' ← write event dir; write_all events dir'

  run_lem :
      (queue : List Logged) (dir : DataDir)
      → run (map some queue ++ none ∷ []) dir ≡ (do dir' ← write_all queue dir; ok ([], dir'))
  unfolding run write_all
  run_lem [] dir = refl
  run_lem (event ∷ queue) dir = elim (Result-cases (write event dir)) [
    | inl (dir', e) ↦ rw e (run_lem queue dir')
    | inr (error, e) ↦ rw e refl
  ]

  queued :
      (queue events : List Logged) (dir : DataDir) (calls : List Call)
      → logged calls ≡ events
      → (do l ← perform_all calls (at_work queue dir); stop l)
        ≡ (do dir' ← write_all (queue ++ events) dir; ok (stopped dir'))
  unfolding perform_all perform log work stop write_all
  queued queue events dir [] h =
      rw (← h, append-nil queue, run_lem queue dir)
        (elim (Result-cases (write_all queue dir)) [
          | inl (dir', e) ↦ rw e refl
          | inr (error, e) ↦ rw e refl
        ])
  queued queue events dir (logs event ∷ calls) h =
      ap
        (λ (q : List (Option Logged)). (do
          l ← perform_all calls (record { queue = q; running = true; dir = dir })
          stop l))
        (sym (map-append some queue (event ∷ [])))
      ∙ queued (queue ++ event ∷ []) (logged calls) dir calls refl
      ∙ rw (append_assoc queue (event ∷ []) (logged calls), h) refl
  queued [] events dir (works ∷ calls) h = queued [] events dir calls h
  queued (event ∷ queue) events dir (works ∷ calls) h = elim (Result-cases (write event dir)) [
    | inl (dir', e) ↦ rw e (queued queue events dir' calls h)
    | inr (error, e) ↦ rw e refl
  ]

  -- From a started logger with an empty queue: whatever is logged, and however the task's rounds fall
  -- between, after `stop` the files are those that writing each event at once, in its order, makes; if
  -- a write fails, the first that does fails in both.
  pub perform_all-stop :
      (calls : List Call) (dir : DataDir)
      → (do l ← perform_all calls (start (stopped dir)); stop l)
        ≡ (do dir' ← write_all (logged calls) dir; ok (stopped dir'))
  unfolding start
  perform_all-stop calls dir = queued [] (logged calls) dir calls refl
