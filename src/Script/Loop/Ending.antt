-- ===== src/Script/Loop/Ending.antt =====
-- The reader ends when it is told to.
use slimhub_v.Prelude.{
  ℕ, suc, ◌≤◌, ◌≡◌, refl, ap, ◌∙◌, Bool, true, false, List, [], ◌∷◌, ◌++◌, arith, none, some,
}
use slimhub_v.Script.Loop.{
  Place, looking, connecting, subscribing, reading, unsubscribing, leaving, pausing, ended, crashed,
  Central, Answer, returned, raised, next_round, after_session, resume_at, notify, Event, resumes,
  notifies, shuts_down, disconnects, perform, perform_all,
}

abbrev pub is_over : Place → Bool
is_over ended = true
is_over crashed = true
is_over _ = false

-- How many waits there are at most before a reader that was told to stop is over.
abbrev rank : Place → ℕ
rank looking = 6
rank connecting = 5
rank subscribing = 4
rank reading = 3
rank unsubscribing = 2
rank leaving = 1
rank pausing = 1
rank ended = 0
rank crashed = 0

unfoldable pub resumptions : List Event → ℕ
resumptions [] = 0
resumptions (resumes answer ∷ events) = suc (resumptions events)
resumptions (notifies chunk ∷ events) = resumptions events
resumptions (shuts_down ∷ events) = resumptions events
resumptions (disconnects ∷ events) = resumptions events

record Nears (k : ℕ) (c : Central) : Type 0 where
  stopped : c.stop_event ≡ true
  nearer : rank c.place ≤ k

resume_at-Nears :
    (place : Place) (answer : Answer) (c : Central) (k : ℕ)
    → c.place ≡ place
    → c.stop_event ≡ true
    → rank place ≤ suc k
    → Nears k (resume_at place answer c)
unfolding resume_at next_round after_session
resume_at-Nears looking (returned none) c k e h le = ground arith
resume_at-Nears looking (returned (some peer)) c k e h le = ground arith
resume_at-Nears looking raised c k e h le = ground arith
resume_at-Nears connecting (returned peer) c k e h le = ground arith
resume_at-Nears connecting raised c k e h le = ground arith
resume_at-Nears subscribing (returned peer) c k e h le = ground arith
resume_at-Nears subscribing raised c k e h le = ground arith
resume_at-Nears reading answer c k e h le = ground arith
resume_at-Nears unsubscribing answer c k e h le = ground arith
resume_at-Nears leaving answer c k e h le = ground arith
resume_at-Nears pausing answer c k e h le = ground arith
resume_at-Nears ended answer c k e h le = ground arith
resume_at-Nears crashed answer c k e h le = ground arith

rank_over : (place : Place) → rank place ≤ 0 → is_over place ≡ true
rank_over ended h = refl
rank_over crashed h = refl
rank_over _ h = absurd (omega arith)

rank_bound : (place : Place) → rank place ≤ 6
rank_bound looking = omega arith
rank_bound connecting = omega arith
rank_bound subscribing = omega arith
rank_bound reading = omega arith
rank_bound unsubscribing = omega arith
rank_bound leaving = omega arith
rank_bound pausing = omega arith
rank_bound ended = omega arith
rank_bound crashed = omega arith

stopped-is_over :
    (events : List Event) (c : Central)
    → c.stop_event ≡ true
    → rank c.place ≤ resumptions events
    → is_over (perform_all events c).place ≡ true
unfolding perform_all perform resumptions notify
stopped-is_over [] c h le = rank_over c.place le
stopped-is_over (resumes answer ∷ events) c h le =
    let n = resume_at-Nears c.place answer c (resumptions events) refl h le in
    stopped-is_over events (resume_at c.place answer c) n.stopped n.nearer
stopped-is_over (notifies chunk ∷ events) c h le =
    stopped-is_over events (notify chunk c) (ground arith) (ground arith)
stopped-is_over (shuts_down ∷ events) c h le = stopped-is_over events _ refl le
stopped-is_over (disconnects ∷ events) c h le = stopped-is_over events _ h le

perform_all-append :
    (before events : List Event) (c : Central)
    → perform_all (before ++ events) c ≡ perform_all events (perform_all before c)
unfolding perform_all
perform_all-append [] events c = refl
perform_all-append (event ∷ before) events c = perform_all-append before events (perform event c)

-- Whatever happened to the reader before, and whatever happens then: once it is told to shut down, it is
-- over when its waits have ended six times, by its loop's test or by an exception of the search.
pub shuts_down-is_over :
    (before events : List Event) (c : Central)
    → 6 ≤ resumptions events
    → is_over (perform_all (before ++ shuts_down ∷ events) c).place ≡ true
unfolding perform_all perform
shuts_down-is_over before events c enough =
    let now = perform_all before c in
    ap (λ (d : Central). is_over d.place) (perform_all-append before (shuts_down ∷ events) c)
    ∙ stopped-is_over events (record now { stop_event = true }) refl
        (let bound = rank_bound now.place in omega arith)
