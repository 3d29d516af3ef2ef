-- ===== src/Unitspace/Occupancy.antt =====
-- Which nodes the commands leave entered: exactly the remembered one, as long as no node signals an
-- exit; and what an exit signal does to that.
use slimhub_v.Prelude.{
  ℕ, ◌≡◌, refl, sym, ap, ◌∙◌, ◌≢◌, inl, inr, Bool, true, false, List, [], ◌∷◌, ◌++◌, arith, ◌==◌,
  ==_iff, if◌then◌else◌, All, Text, Bool-cases, text_eq, text_eq_iff, text_eq_refl, Option, none,
  some, Option-cases, ok, ok-injective,
}
use slimhub_v.Protocol.Mac.{normalize_mac}
use slimhub_v.Protocol.Command.{strong_enter, strong_exit}
use slimhub_v.Config.{default_location}
use slimhub_v.Events.{RawDataEvent, CommandEvent, text_or, option_or}
use slimhub_v.Unitspace.{
  UnitspaceStatus, remember, command_event, is_enter_signal, exit_signal, handle_enter,
  handle_signal, handle, handle_all,
}
use slimhub_v.Unitspace.Commands.{
  handle_enter_first, handle_enter_same, handle_enter_move, handle-eq-ok, handle_all-eq-ok,
}

-- Which nodes are entered, by the commands that they were sent.
abbrev pub Presence : Type 0
Presence = Text → Bool

abbrev pub nobody : Presence
nobody a = false

abbrev set_presence : Text → Bool → Presence → Presence
set_presence a v p b = if text_eq a b then v else p b

pub after_command : CommandEvent → Presence → Presence
unfolding text_eq
after_command c p =
    if text_eq c.command strong_enter
    then set_presence c.address true p
    else if text_eq c.command strong_exit
    then set_presence c.address false p
    else p

pub after_commands : List CommandEvent → Presence → Presence
after_commands [] p = p
after_commands (c ∷ cs) p = after_commands cs (after_command c p)

abbrev pub remembers : Option Text → Text → Bool
remembers none a = false
remembers (some b) a = text_eq b a

-- Exactly the remembered node is entered.
abbrev pub Tracks : Presence → UnitspaceStatus → Type 0
Tracks p s = (a : Text) → p a ≡ remembers s.last_address a

after_commands-append :
    (cs ds : List CommandEvent) (p : Presence)
    → after_commands (cs ++ ds) p ≡ after_commands ds (after_commands cs p)
unfolding after_commands
after_commands-append [] ds p = refl
after_commands-append (c ∷ cs) ds p = after_commands-append cs ds (after_command c p)

after_enter :
    (a location b : Text) (p : Presence)
    → after_command (command_event a strong_enter location) p b ≡ set_presence a true p b
unfolding after_command
after_enter a location b p = refl

after_exit :
    (a location b : Text) (p : Presence)
    → after_command (command_event a strong_exit location) p b ≡ set_presence a false p b
unfolding after_command
after_exit a location b p = refl

moved :
    (a p b : Text) (q : Presence)
    → text_eq a p ≡ false
    → q b ≡ text_eq p b
    → set_presence p false (set_presence a true q) b ≡ text_eq a b
moved a p b q other h = ground (arith, text_eq_iff a p, text_eq_iff p b, text_eq_iff a b)

entered : (a b : Text) (p : Presence) → p b ≡ false → set_presence a true p b ≡ text_eq a b
entered a b p h = ground arith

stayed : (a p b : Text) (v : Bool) → text_eq a p ≡ true → v ≡ text_eq p b → v ≡ text_eq a b
stayed a p b v same h = h ∙ ap (λ (t : Text). text_eq t b) (sym ((text_eq_iff a p).0 same))

handle_enter-Tracks :
    (a location : Text) (t : ℕ) (s : UnitspaceStatus) (p : Presence)
    → Tracks p s
    → Tracks (after_commands (handle_enter a location t s).0 p) (handle_enter a location t s).1
unfolding after_commands remember
handle_enter-Tracks a location t s p tracks = elim (Option-cases s.last_address) [
  | inl e ↦
      rw (handle_enter_first a location t s e)
        (λ b. after_enter a location b p ∙ entered a b p (tracks b ∙ ap (λ o. remembers o b) e))
  | inr (q, e) ↦ elim (Bool-cases (text_eq a q)) [
    | inl same ↦
        rw (handle_enter_same a location t s q e same)
          (λ b. stayed a q b (p b) same (tracks b ∙ ap (λ o. remembers o b) e))
    | inr other ↦ rw (handle_enter_move a location t s q e other) (λ b.
        after_exit q (option_or s.last_location default_location) b
          (after_command (command_event a strong_enter location) p)
        ∙ ap (λ (v : Bool). if text_eq q b then false else v) (after_enter a location b p)
        ∙ moved a q b p other (tracks b ∙ ap (λ o. remembers o b) e))
  ]
]

handle_signal-Tracks :
    (a : Text) (event : RawDataEvent) (s : UnitspaceStatus) (p : Presence)
    → event.packet.detected ≢ exit_signal
    → Tracks p s
    → Tracks (after_commands (handle_signal a event s).0 p) (handle_signal a event s).1
unfolding handle_signal
handle_signal-Tracks a event s p stays tracks =
    elim (Bool-cases (is_enter_signal event.packet.detected)) [
      | inl enters ↦ rw enters (
          handle_enter-Tracks a (text_or event.location default_location) event.timestamp s p
            tracks)
      | inr e ↦ elim (Bool-cases (event.packet.detected == exit_signal)) [
        | inl exits ↦ absurd (stays ((==_iff _ exit_signal).0 exits))
        | inr f ↦ rw (e, f) (unfold after_commands in tracks)
      ]
    ]

handle-Tracks :
    (s : UnitspaceStatus) (event : RawDataEvent) (r : List CommandEvent × UnitspaceStatus)
    (p : Presence)
    → event.packet.detected ≢ exit_signal
    → Tracks p s
    → handle s event ≡ ok r
    → Tracks (after_commands r.0 p) r.1
handle-Tracks s event r p stays tracks h = elim (handle-eq-ok s event r h) [
  | inl (_, e) ↦ rw e (unfold after_commands in tracks)
  | inr (a, _, _, e) ↦ rw e (handle_signal-Tracks a event s p stays tracks)
]

abbrev pub NoExit : RawDataEvent → Type 0
NoExit event = event.packet.detected ≢ exit_signal

-- A history in which no node signals an exit, if it is handled from a state that remembers just
-- the entered node, ends in such a state: after its commands the entered nodes are exactly the
-- node that the estimator remembers.
pub handle_all-Tracks :
    (events : List RawDataEvent) (s : UnitspaceStatus) (r : List CommandEvent × UnitspaceStatus)
    (p : Presence)
    → All NoExit events
    → Tracks p s
    → handle_all s events ≡ ok r
    → Tracks (after_commands r.0 p) r.1
unfolding handle_all
handle_all-Tracks [] s r p stays tracks h =
    rw (sym (ok-injective _ _ h)) (unfold after_commands in tracks)
handle_all-Tracks (event ∷ events) s r p (stay, stays) tracks h =
    let (q, t, e, f, same) = handle_all-eq-ok s event events r h in
    let first = handle-Tracks s event q p stay tracks e in
    let rest = handle_all-Tracks events q.1 t (after_commands q.0 p) stays first f in
    rw (same, after_commands-append q.0 t.0 p) rest

-- An event of a node that is present, at an address in normal form.
pub record IsPresent (event : RawDataEvent) (a : Text) : Type 0 where
  pub present : event.packet.flag_human_presence ≡ 1
  pub at : normalize_mac event.mac ≡ ok a

abbrev place : RawDataEvent → Text
place event = text_or event.location default_location

handle_exit :
    (s : UnitspaceStatus) (event : RawDataEvent) (a : Text)
    → IsPresent event a
    → event.packet.detected ≡ exit_signal
    → handle s event
      ≡ ok (
        command_event a strong_exit (place event) ∷ [],
        remember a (place event) event.timestamp s,
      )
unfolding handle handle_signal
handle_exit s event a h e = rw (h.present, h.at, e) refl

handle_entering :
    (s : UnitspaceStatus) (event : RawDataEvent) (a : Text)
    → IsPresent event a
    → is_enter_signal event.packet.detected ≡ true
    → handle s event ≡ ok (handle_enter a (place event) event.timestamp s)
unfolding handle handle_signal
handle_entering s event a h e = rw (h.present, h.at, e) refl

-- A node that is present and signals an exit and then an enter, with nothing between, is sent the
-- exit and no enter, and is remembered.
pub reenter_silent :
    (s : UnitspaceStatus) (leave enter : RawDataEvent) (a : Text)
    → IsPresent leave a
    → IsPresent enter a
    → leave.packet.detected ≡ exit_signal
    → is_enter_signal enter.packet.detected ≡ true
    → handle_all s (leave ∷ enter ∷ [])
      ≡ ok (
        command_event a strong_exit (place leave) ∷ [],
        remember a (place enter) enter.timestamp s,
      )
unfolding handle_all
reenter_silent s leave enter a hl he exits enters =
    let s' : UnitspaceStatus = remember a (place leave) leave.timestamp s in
    rw
      (
        handle_exit s leave a hl exits,
        handle_entering s' enter a he enters,
        handle_enter_same a (place enter) enter.timestamp s' a (unfold remember in refl)
            (text_eq_refl a),
      )
      (unfold remember in refl)

text_ne : (a b : Text) → a ≢ b → text_eq a b ≡ false
text_ne a b h = ground (arith, text_eq_iff a b)

untouched :
    (a b c : Text) (p : Presence)
    → a ≢ b
    → a ≢ c
    → set_presence b false (set_presence c true (set_presence b false p)) a ≡ p a
untouched a b c p from_b from_c = ground (arith, text_eq_iff b a, text_eq_iff c a)

-- If a node that is present signals an exit and another one then an enter, the commands leave the
-- presence of every third node as it was, whatever node the estimator remembered before.
pub exit_elsewhere_abandons :
    (s : UnitspaceStatus) (leave enter : RawDataEvent) (a b c : Text) (p : Presence)
    → IsPresent leave b
    → IsPresent enter c
    → leave.packet.detected ≡ exit_signal
    → is_enter_signal enter.packet.detected ≡ true
    → c ≢ b
    → a ≢ b
    → a ≢ c
    → (r : List CommandEvent × UnitspaceStatus) × (handle_all s (leave ∷ enter ∷ []) ≡ ok r)
      × (after_commands r.0 p a ≡ p a)
unfolding handle_all
exit_elsewhere_abandons s leave enter a b c p hl he exits enters other from_b from_c =
    let s' : UnitspaceStatus = remember b (place leave) leave.timestamp s in
    let last : s'.last_address ≡ some b = unfold remember in refl in
    (
      (
        command_event b strong_exit (place leave)
            ∷ command_event c strong_enter (place enter)
            ∷ command_event b strong_exit (option_or s'.last_location default_location)
            ∷ [],
        remember c (place enter) enter.timestamp s',
      ),
      rw
          (
            handle_exit s leave b hl exits,
            handle_entering s' enter c he enters,
            handle_enter_move c (place enter) enter.timestamp s' b last (text_ne c b other),
          )
          refl,
      unfold after_commands after_command in untouched a b c p from_b from_c,
    )
