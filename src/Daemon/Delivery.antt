-- ===== src/Daemon/Delivery.antt =====
-- Which session's queue gets which command, when `handle_frame` gives the estimator's commands to the
-- registry.
use mathlib.Core.Bool.{false≢true}
use slimhub_v.Prelude.{
  ℕ, ◌≡◌, refl, sym, ap, ◌∙◌, ◌≢◌, inl, inr, Bool, true, false, List, [], ◌∷◌, ◌++◌, append-nil,
  append_assoc, filter, filter-append, ◌==◌, ==_iff, if◌then◌else◌, get_elem?, get_elem?-set_self,
  get_elem?-set_ne, All, Text, Bool-cases, Option, none, some, Option-cases, Result, ok, err,
}
use slimhub_v.Protocol.Mac.{normalize_mac}
use slimhub_v.Events.{CommandEvent}
use slimhub_v.Unitspace.Commands.{IsSendable}
use slimhub_v.Ble.Registry.{DeviceRegistry, find_session, get}
use slimhub_v.Ble.Session.{DeviceSession, enqueue}
use slimhub_v.Ble.Central.{BleCentral, modify, deliver, send_command}
use slimhub_v.Ble.Central.Laws.{modify-set}
use slimhub_v.Daemon.{send_all}
use slimhub_v.Daemon.Frames.{sendable_address}

abbrev leads_to : Result (Option ℕ) → ℕ → Bool
leads_to (err e) i = false
leads_to (ok none) i = false
leads_to (ok (some session)) i = session == i

abbrev leads : Result (Option ℕ) → Bool
leads (err e) = false
leads (ok none) = false
leads (ok (some session)) = true

-- The commands whose address leads to a session, and those whose address leads to any.
unfoldable pub inbox : DeviceRegistry → ℕ → List CommandEvent → List CommandEvent
inbox r i commands = filter (λ (c : CommandEvent). leads_to (get r c.address) i) commands

unfoldable pub delivered : DeviceRegistry → List CommandEvent → List CommandEvent
delivered r commands = filter (λ (c : CommandEvent). leads (get r c.address)) commands

-- A session, if there is one, with more commands in its queue.
abbrev pub with_commands : List CommandEvent → Option DeviceSession → Option DeviceSession
with_commands commands none = none
with_commands commands (some s) = some (record s { command_queue = s.command_queue ++ commands })

pub with_commands-nil : (s : Option DeviceSession) → with_commands [] s ≡ s
with_commands-nil none = refl
with_commands-nil (some s) =
    ap (λ (q : List CommandEvent). some (record s { command_queue = q }))
      (append-nil s.command_queue)

with_commands-append :
    (l m : List CommandEvent) (s : Option DeviceSession)
    → with_commands m (with_commands l s) ≡ with_commands (l ++ m) s
with_commands-append l m none = refl
with_commands-append l m (some s) =
    ap (λ (q : List CommandEvent). some (record s { command_queue = q }))
      (append_assoc s.command_queue l m)

-- Each session of the heap has the commands that lead to it at the end of its queue, in their order.
abbrev pub AreQueued : List CommandEvent → BleCentral → BleCentral → Type 0
AreQueued commands c c' =
    (i : ℕ) → get_elem? c'.heap i ≡ with_commands (inbox c.registry i commands) (get_elem? c.heap i)

modify_other :
    (i j : ℕ) (f : DeviceSession → DeviceSession) (heap : List DeviceSession)
    → j ≢ i
    → get_elem? (modify j f heap) i ≡ get_elem? heap i
modify_other i j f heap ne = elim (Option-cases (get_elem? heap j)) [
  | inl absent ↦ rw (modify, absent) refl
  | inr (old, there) ↦ rw (modify, there) (get_elem?-set_ne heap j i (f old) ne)
]

modify_self :
    (i : ℕ) (command : CommandEvent) (heap : List DeviceSession)
    → get_elem? (modify i (enqueue command) heap) i
      ≡ with_commands (command ∷ []) (get_elem? heap i)
unfolding enqueue
modify_self i command heap = elim (Option-cases (get_elem? heap i)) [
  | inl absent ↦ rw (modify, absent) absent ∙ ap (with_commands (command ∷ [])) (sym absent)
  | inr (s, there) ↦
      ap (λ (h : List DeviceSession). get_elem? h i) (modify-set i (enqueue command) heap s there)
      ∙ get_elem?-set_self heap i (enqueue command s) s there
      ∙ ap (with_commands (command ∷ [])) (sym there)
]

modify_at :
    (i j : ℕ) (command : CommandEvent) (heap : List DeviceSession)
    → get_elem? (modify j (enqueue command) heap) i
      ≡ with_commands (if j == i then command ∷ [] else []) (get_elem? heap i)
modify_at i j command heap = elim (Bool-cases (j == i)) [
  | inl same ↦ rw (same, (==_iff j i).0 same) (modify_self i command heap)
  | inr other ↦
      rw (other, with_commands-nil (get_elem? heap i))
        (modify_other i j (enqueue command) heap (λ e. false≢true (sym other ∙ (==_iff j i).1 e)))
]

send_command_at :
    (command : CommandEvent) (c : BleCentral) (n : Text)
    → normalize_mac command.address ≡ ok n
    → (c' : BleCentral) × (send_command command c ≡ ok (leads (get c.registry command.address), c'))
      × (c'.registry ≡ c.registry)
      × AreQueued (command ∷ []) c c'
unfolding send_command get inbox
send_command_at command c n norm = elim (Option-cases (find_session c.registry n)) [
  | inl absent ↦ (
    c,
    rw (norm, absent) refl,
    refl,
    λ i. rw (norm, absent) (sym (with_commands-nil (get_elem? c.heap i))),
  )
  | inr (session, found) ↦ (
    (deliver command c (some session)).1,
    rw (norm, found) refl,
    refl,
    λ i. rw (norm, found) (modify_at i session command c.heap),
  )
]

-- One command after the other.
queued_both :
    (command : CommandEvent) (commands : List CommandEvent) (c c1 c2 : BleCentral)
    → c1.registry ≡ c.registry
    → AreQueued (command ∷ []) c c1
    → AreQueued commands c1 c2
    → AreQueued (command ∷ commands) c c2
unfolding inbox
queued_both command commands c c1 c2 same one rest i =
    let to_i = λ (d : CommandEvent). leads_to (get c.registry d.address) i in
    (rw same at (rest i))
    ∙ ap (with_commands (filter to_i commands)) (one i)
    ∙ with_commands-append (filter to_i (command ∷ [])) (filter to_i commands) (get_elem? c.heap i)
    ∙ ap (λ (l : List CommandEvent). with_commands l (get_elem? c.heap i))
        (sym (filter-append to_i (command ∷ []) commands))

pub send_all_lem :
    (commands : List CommandEvent) (c : BleCentral)
    → All IsSendable commands
    → (c' : BleCentral) × (send_all commands c ≡ ok (delivered c.registry commands, c'))
      × (c'.registry ≡ c.registry)
      × AreQueued commands c c'
unfolding send_all delivered inbox
send_all_lem [] c ready = (c, refl, refl, λ i. sym (with_commands-nil (get_elem? c.heap i)))
send_all_lem (command ∷ commands) c (ready, all) =
    let (n, norm) = sendable_address command ready in
    let (c1, e1, same1, one) = send_command_at command c n norm in
    let (c2, e2, same2, rest) = send_all_lem commands c1 all in
    (
      c2,
      rw (e1, e2, same1) refl,
      same2 ∙ same1,
      queued_both command commands c c1 c2 same1 one rest,
    )
