-- ===== src/Unitspace/Commands.antt =====
-- What commands the estimator can send, and when it sends none.
use mathlib.Core.Bool.{false≢true}
use mathlib.Core.Option.{some-injective}
use slimhub_v.Prelude.{
  ℕ, ◌+◌, ◌≡◌, refl, sym, ◌∙◌, ==_iff, ◌≢◌, ◌⊎◌, inl, inr, true, false, List, [], ◌∷◌, ◌++◌, ◌==◌,
  All, All-append, Text, Bytes, ltb, Bool-cases, text_eq, none, some, Option-cases, ok,
  ok-injective, >>=-eq-ok,
}
use slimhub_v.Protocol.Mac.{normalize_mac}
use slimhub_v.Protocol.Mac.Laws.{normalize_mac_idem}
use slimhub_v.Protocol.Command.{strong_enter, strong_exit, validate_command}
use slimhub_v.Protocol.Frame.{build_command_frame}
use slimhub_v.Protocol.Frame.RoundTrip.{build_command_frame_total}
use slimhub_v.Config.{default_location}
use slimhub_v.Events.{RawDataEvent, CommandEvent, text_or, option_or}
use slimhub_v.Unitspace.{
  UnitspaceStatus, initial, remember, noise_threshold, command_event, is_enter_signal, exit_signal,
  handle_enter, handle_signal, handle, handle_all,
}

abbrev pub IsNormal : Text → Type 0
IsNormal mac = normalize_mac mac ≡ ok mac

-- The address that the estimator remembers is normalized.
abbrev pub IsTracking : UnitspaceStatus → Type 0
IsTracking s = (a : Text) → s.last_address ≡ some a → IsNormal a

-- A command that the command worker of a session can frame.
abbrev pub IsSendable : CommandEvent → Type 0
IsSendable c = (bytes : Bytes) × (build_command_frame c.address c.command ≡ ok bytes)

pub IsTracking-initial : IsTracking initial
IsTracking-initial a e = cc

remember-IsTracking :
    (address location : Text) (t : ℕ) (s : UnitspaceStatus)
    → IsNormal address
    → IsTracking (remember address location t s)
unfolding remember
remember-IsTracking address location t s h a e =
    let same : address ≡ a = some-injective address a e in rw (← same) h

enter-IsSendable :
    (a location : Text) → IsNormal a → IsSendable (command_event a strong_enter location)
enter-IsSendable a location h =
    let (bytes, e, _) =
      build_command_frame_total a a strong_enter strong_enter h (unfold validate_command in refl) in
    (bytes, e)

exit-IsSendable :
    (a location : Text) → IsNormal a → IsSendable (command_event a strong_exit location)
exit-IsSendable a location h =
    let (bytes, e, _) =
      build_command_frame_total a a strong_exit strong_exit h (unfold validate_command in refl) in
    (bytes, e)

-- The three cases of an enter signal.
module _ (a location : Text) (t : ℕ) (s : UnitspaceStatus) where
  pub handle_enter_first :
      s.last_address ≡ none
      → handle_enter a location t s
        ≡ (command_event a strong_enter location ∷ [], remember a location t s)
  unfolding handle_enter remember
  handle_enter_first e = rw (e, handle_enter) refl

  pub handle_enter_same :
      (p : Text)
      → s.last_address ≡ some p
      → text_eq a p ≡ true
      → handle_enter a location t s ≡ ([], remember a location t s)
  unfolding handle_enter remember
  handle_enter_same p e same = elim (Bool-cases (ltb t (s.last_timestamp + noise_threshold))) [
    | inl soon ↦ rw (e, same, soon, handle_enter) refl
    | inr late ↦ rw (e, same, late, handle_enter) refl
  ]

  pub handle_enter_move :
      (p : Text)
      → s.last_address ≡ some p
      → text_eq a p ≡ false
      → handle_enter a location t s ≡ (
        command_event a strong_enter location
            ∷ command_event p strong_exit (option_or s.last_location default_location)
            ∷ [],
        remember a location t s,
      )
  unfolding handle_enter remember
  handle_enter_move p e other = rw (e, other, handle_enter) refl

handle_enter-IsSendable :
    (a location : Text) (t : ℕ) (s : UnitspaceStatus)
    → IsNormal a
    → IsTracking s
    → All IsSendable (handle_enter a location t s).0 × IsTracking (handle_enter a location t s).1
handle_enter-IsSendable a location t s h tracking =
    let kept = remember-IsTracking a location t s h in
    elim (Option-cases s.last_address) [
      | inl e ↦ rw (handle_enter_first a location t s e) ((enter-IsSendable a location h, tt), kept)
      | inr (p, e) ↦ elim (Bool-cases (text_eq a p)) [
        | inl same ↦ rw (handle_enter_same a location t s p e same) (tt, kept)
        | inr other ↦ rw (handle_enter_move a location t s p e other) (
          (
            enter-IsSendable a location h,
            (exit-IsSendable p (option_or s.last_location default_location) (tracking p e), tt),
          ),
          kept,
        )
      ]
    ]

handle_signal-IsSendable :
    (a : Text) (event : RawDataEvent) (s : UnitspaceStatus)
    → IsNormal a
    → IsTracking s
    → All IsSendable (handle_signal a event s).0 × IsTracking (handle_signal a event s).1
unfolding handle_signal
handle_signal-IsSendable a event s h tracking =
    let location : Text = text_or event.location default_location in
    elim (Bool-cases (is_enter_signal event.packet.detected)) [
      | inl enters ↦ rw enters (handle_enter-IsSendable a location event.timestamp s h tracking)
      | inr e ↦ elim (Bool-cases (event.packet.detected == exit_signal)) [
        | inl exits ↦
            rw (e, exits)
              (
                (exit-IsSendable a location h, tt),
                remember-IsTracking a location event.timestamp s h,
              )
        | inr f ↦ rw (e, f) (tt, tracking)
      ]
    ]

-- The result of an event that is handled: that of its signal, at the address in normal form, or
-- nothing if the event shows no presence.
pub handle-eq-ok :
    (s : UnitspaceStatus) (event : RawDataEvent) (r : List CommandEvent × UnitspaceStatus)
    → handle s event ≡ ok r
    → ((event.packet.flag_human_presence ≢ 1) × (r ≡ ([], s)))
      ⊎ ((a : Text) × (event.packet.flag_human_presence ≡ 1)
          × (normalize_mac event.mac ≡ ok a)
          × (r ≡ handle_signal a event s))
unfolding handle
handle-eq-ok s event r h = elim (Bool-cases (event.packet.flag_human_presence == 1)) [
  | inl present ↦
      let (a, e, f) = >>=-eq-ok (normalize_mac event.mac) _ (rw (present, handle) at h) in
      inr (a, (==_iff _ 1).0 present, e, sym (ok-injective _ _ f))
  | inr absent ↦ inl (
    λ e. false≢true (sym absent ∙ (==_iff _ 1).1 e),
    sym (ok-injective _ _ (rw (absent, handle) at h)),
  )
]

-- Every command that a handled event sends can be framed, and the remembered address stays normalized.
pub handle-IsSendable :
    (s : UnitspaceStatus) (event : RawDataEvent) (r : List CommandEvent × UnitspaceStatus)
    → IsTracking s
    → handle s event ≡ ok r
    → All IsSendable r.0 × IsTracking r.1
handle-IsSendable s event r tracking h = elim (handle-eq-ok s event r h) [
  | inl (_, e) ↦ rw e (tt, tracking)
  | inr (a, _, norm, e) ↦
      rw e (handle_signal-IsSendable a event s (normalize_mac_idem event.mac a norm) tracking)
]

pub handle_all-eq-ok :
    (s : UnitspaceStatus) (event : RawDataEvent) (events : List RawDataEvent)
    (r : List CommandEvent × UnitspaceStatus)
    → handle_all s (event ∷ events) ≡ ok r
    → (p q : List CommandEvent × UnitspaceStatus) × (handle s event ≡ ok p)
      × (handle_all p.1 events ≡ ok q)
      × (r ≡ (p.0 ++ q.0, q.1))
unfolding handle_all
handle_all-eq-ok s event events r h =
    let (p, e, h1) = >>=-eq-ok (handle s event) _ h in
    let (q, f, h2) = >>=-eq-ok (handle_all p.1 events) _ h1 in
    (p, q, e, f, sym (ok-injective _ _ h2))

-- If a history that is handled starts where the remembered address, if any, is normalized, then every
-- command that the estimator sends can be framed by `build_command_frame`, and the remembered address is
-- normalized in the end.
pub handle_all-IsSendable :
    (events : List RawDataEvent) (s : UnitspaceStatus) (r : List CommandEvent × UnitspaceStatus)
    → IsTracking s
    → handle_all s events ≡ ok r
    → All IsSendable r.0 × IsTracking r.1
unfolding handle_all
handle_all-IsSendable [] s r tracking h = rw (sym (ok-injective _ _ h)) (tt, tracking)
handle_all-IsSendable (event ∷ events) s r tracking h =
    let (p, q, e, f, same) = handle_all-eq-ok s event events r h in
    let (first, tracking') = handle-IsSendable s event p tracking e in
    let (more, tracking'') = handle_all-IsSendable events p.1 q tracking' f in
    rw same (All-append IsSendable p.0 q.0 first more, tracking'')
