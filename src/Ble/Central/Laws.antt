-- ===== src/Ble/Central/Laws.antt =====
-- One session for each device, and the commands that reach it.
use slimhub_v.Prelude.{
  ℕ, ◌≡◌, refl, sym, ap, ◌∙◌, ◌≢◌, inl, inr, true, false, List, [], ◌∷◌, ◌++◌, length, length-set,
  get_elem?, set, get_elem?-set_self, get_elem?-set_ne, Text, text_eq_refl, Option, none, some,
  Option-cases, ok, ok-injective, >>=-eq-ok,
}
use slimhub_v.Prelude.Dict.{lookup, insert, lookup-insert}
use slimhub_v.Protocol.Mac.{normalize_mac}
use slimhub_v.Protocol.Mac.Laws.{normalize_mac_idem}
use slimhub_v.Events.{CommandEvent}
use slimhub_v.Ble.Registry.{DeviceRegistry, add, find_session, get, register_alias}
use slimhub_v.Ble.Registry.Routing.{
  find_session-insert, IsRouted, add-IsRouted, register_alias_unknown,
}
use slimhub_v.Ble.Session.{
  retargeted, Target, DeviceSession, new_session, update_target, start, enqueue,
}
use slimhub_v.Ble.Central.{BleCentral, modify, retarget, ensure_target, deliver, send_command}

-- The session that `new_session` makes for a target, and that is started.
abbrev started_session : Target → Text → DeviceSession
started_session target n = record {
  target = target;
  address = n;
  name = target.name;
  connected = false;
  last_seen = 0;
  last_error = none;
  waiting_for_advertisement = false;
  target_updated = true;
  started = true;
  command_queue = [];
}

abbrev with_session : Target → Text → BleCentral → BleCentral
with_session target n c = record {
  registry = record c.registry { sessions = insert n (length c.heap) c.registry.sessions };
  heap = c.heap ++ started_session target n ∷ [];
}

ensure_target_unknown :
    (now : ℕ) (target : Target) (c : BleCentral) (n : Text)
    → normalize_mac target.address ≡ ok n
    → find_session c.registry n ≡ none
    → ensure_target now target c ≡ ok (length c.heap, with_session target n c)
unfolding ensure_target get new_session add start
ensure_target_unknown now target c n norm absent =
    rw (norm, absent, norm, normalize_mac_idem target.address n norm) refl

retarget_lem :
    (now : ℕ) (target : Target) (n : Text) (session : ℕ) (c : BleCentral) (s : Option DeviceSession)
    → normalize_mac target.address ≡ ok n
    → (heap : List DeviceSession) × (retarget now target session c s
        ≡ ok (session, record c { heap = heap }))
      × (length heap ≡ length c.heap)
unfolding update_target
retarget_lem now target n session c none norm = (c.heap, refl, refl)
retarget_lem now target n session c (some s) norm =
    let s' : DeviceSession = retargeted now target n s in
    (set c.heap session s', rw norm refl, length-set c.heap session s')

ensure_target_known :
    (now : ℕ) (target : Target) (c : BleCentral) (n : Text) (session : ℕ)
    → normalize_mac target.address ≡ ok n
    → find_session c.registry n ≡ some session
    → (heap : List DeviceSession) × (ensure_target now target c
        ≡ ok (session, record c { heap = heap }))
      × (length heap ≡ length c.heap)
unfolding ensure_target get
ensure_target_known now target c n session norm found =
    let (heap, e, same) = retarget_lem now target n session c (get_elem? c.heap session) norm in
    (heap, rw (norm, found) e, same)

found_after :
    (target : Target) (c : BleCentral) (n : Text)
    → find_session (with_session target n c).registry n ≡ some (length c.heap)
unfolding find_session
found_after target c n =
    rw (lookup-insert n n (length c.heap) c.registry.sessions, text_eq_refl n) refl

normalizes :
    (now : ℕ) (target : Target) (c : BleCentral) {r : ℕ × BleCentral}
    → ensure_target now target c ≡ ok r
    → (n : Text) × (normalize_mac target.address ≡ ok n)
unfolding ensure_target get
normalizes now target c h =
    let (_, hf, _) = >>=-eq-ok (get c.registry target.address) _ h in
    let (n, norm, _) = >>=-eq-ok (normalize_mac target.address) _ hf in (n, norm)

-- After a target was ensured, ensuring a target with the same normalized address succeeds, now or
-- later, with the same session, and neither the number of sessions nor the registry changes.
pub ensure_target_twice :
    (now later : ℕ) (target again : Target) (c c1 : BleCentral) (session : ℕ)
    → ensure_target now target c ≡ ok (session, c1)
    → normalize_mac again.address ≡ normalize_mac target.address
    → (heap : List DeviceSession) × (ensure_target later again c1
        ≡ ok (session, record c1 { heap = heap }))
      × (length heap ≡ length c1.heap)
ensure_target_twice now later target again c c1 session h same =
    let (n, norm) = normalizes now target c h in
    elim (Option-cases (find_session c.registry n)) [
      | inl absent ↦
          let e = ok-injective _ _ (sym h ∙ ensure_target_unknown now target c n norm absent) in
          ensure_target_known later again c1 n session (same ∙ norm) (
            ap (λ (r : ℕ × BleCentral). find_session r.1.registry n) e
            ∙ found_after target c n
            ∙ sym (ap (λ (r : ℕ × BleCentral). some r.0) e))
      | inr (k, found) ↦
          let (heap, e', _) = ensure_target_known now target c n k norm found in
          let e = ok-injective _ _ (sym h ∙ e') in
          ensure_target_known later again c1 n session (same ∙ norm) (
            ap (λ (r : ℕ × BleCentral). find_session r.1.registry n) e
            ∙ found
            ∙ sym (ap (λ (r : ℕ × BleCentral). some r.0) e))
    ]

pub modify-set :
    (session : ℕ) (f : DeviceSession → DeviceSession) (heap : List DeviceSession)
    (s : DeviceSession)
    → get_elem? heap session ≡ some s
    → modify session f heap ≡ set heap session (f s)
modify-set session f heap s there = rw (modify, there) refl

-- If `get` finds a session for the address of a command, and the heap has it, the command is
-- delivered: it is put at the end of that session's queue, nothing else of the session changes,
-- and neither does the registry or any other session.
pub send_command_lem :
    (command : CommandEvent) (c : BleCentral) (session other : ℕ) (s : DeviceSession)
    → get c.registry command.address ≡ ok (some session)
    → get_elem? c.heap session ≡ some s
    → session ≢ other
    → (c' : BleCentral) × (send_command command c ≡ ok (true, c'))
      × (c'.registry ≡ c.registry)
      × (get_elem? c'.heap session
          ≡ some (record s { command_queue = s.command_queue ++ command ∷ [] }))
      × (get_elem? c'.heap other ≡ get_elem? c.heap other)
unfolding send_command enqueue
send_command_lem command c session other s found there ne =
    let changed = modify-set session (enqueue command) c.heap s there in
    (
      (deliver command c (some session)).1,
      rw found refl,
      refl,
      ap (λ (h : List DeviceSession). get_elem? h session) changed
          ∙ get_elem?-set_self c.heap session (enqueue command s) s there,
      ap (λ (h : List DeviceSession). get_elem? h other) changed
          ∙ get_elem?-set_ne c.heap session other (enqueue command s) ne,
    )

-- If the address of a target is an alias of a session's address, and not itself the address of a
-- session, then ensuring the target gives that session the alias for its own address, while the
-- registry does not have a session under it: registering any alias for the session's address then
-- changes nothing.
pub ensure_target_alias :
    (now : ℕ) (target : Target) (c : BleCentral) (n canonical : Text) (session : ℕ)
    (s : DeviceSession) (alias a : Text)
    → normalize_mac target.address ≡ ok n
    → lookup n c.registry.sessions ≡ none
    → lookup n c.registry.aliases ≡ some canonical
    → lookup canonical c.registry.sessions ≡ some session
    → get_elem? c.heap session ≡ some s
    → normalize_mac alias ≡ ok a
    → (c' : BleCentral) × (s' : DeviceSession) × (ensure_target now target c ≡ ok (session, c'))
      × (get_elem? c'.heap session ≡ some s')
      × (s'.address ≡ n)
      × (register_alias c'.registry alias s'.address ≡ ok c'.registry)
unfolding ensure_target get find_session update_target
ensure_target_alias now target c n canonical session s alias a norm absent aliased known there ha =
    let s' : DeviceSession = retargeted now target n s in
    (
      record c { heap = set c.heap session s' },
      s',
      rw (norm, absent, aliased, known, there, norm) refl,
      get_elem?-set_self c.heap session s' s there,
      refl,
      register_alias_unknown c.registry alias n a n ha (normalize_mac_idem target.address n norm)
          absent,
    )

add-ok :
    (r : DeviceRegistry) (session : ℕ) (n : Text)
    → normalize_mac n ≡ ok n
    → add r session n ≡ ok (record r { sessions = insert n session r.sessions })
unfolding add
add-ok r session n norm = rw norm refl

-- A target with an accepted address is ensured without an error: its address leads to the session, and
-- aliases that lead to sessions still do.
pub ensure_target_total :
    (now : ℕ) (target : Target) (c : BleCentral) (n : Text)
    → normalize_mac target.address ≡ ok n
    → IsRouted c.registry
    → (session : ℕ) × (c' : BleCentral) × (ensure_target now target c ≡ ok (session, c'))
      × (get c'.registry target.address ≡ ok (some session))
      × IsRouted c'.registry
unfolding get
ensure_target_total now target c n norm routed = elim (Option-cases (find_session c.registry n)) [
  | inl absent ↦ (
    length c.heap,
    with_session target n c,
    ensure_target_unknown now target c n norm absent,
    rw norm (ap ok (found_after target c n)),
    add-IsRouted c.registry _ (length c.heap) n routed
        (add-ok c.registry (length c.heap) n (normalize_mac_idem target.address n norm)),
  )
  | inr (session, found) ↦
      let (heap, e, _) = ensure_target_known now target c n session norm found in
      (session, record c { heap = heap }, e, rw (norm, found) refl, routed)
]

-- An address that leads to a session still leads to it after a target was ensured.
pub get-ensure_target :
    (now : ℕ) (target : Target) (c c' : BleCentral) (address : Text) (made session : ℕ)
    → ensure_target now target c ≡ ok (made, c')
    → get c.registry address ≡ ok (some session)
    → get c'.registry address ≡ ok (some session)
unfolding get
get-ensure_target now target c c' address made session e found =
    let (n, norm) = normalizes now target c e in
    let (x, at, looked) = >>=-eq-ok (normalize_mac address) _ found in
    let there = ok-injective _ _ looked in
    elim (Option-cases (find_session c.registry n)) [
      | inl absent ↦
          let same =
            ok-injective _ _ (sym (ensure_target_unknown now target c n norm absent) ∙ e) in
          ap (λ (r : ℕ × BleCentral). get r.1.registry address) (sym same)
          ∙ rw at (ap ok (find_session-insert c.registry n x (length c.heap) session absent there))
      | inr (old, known) ↦
          let (heap, e', _) = ensure_target_known now target c n old norm known in
          let same = ok-injective _ _ (sym e' ∙ e) in
          ap (λ (r : ℕ × BleCentral). get r.1.registry address) (sym same) ∙ found
    ]
