-- ===== src/Daemon/Moves.antt =====
-- Someone goes from one node to another: what the sessions of both are given.
use slimhub_v.Prelude.{
  if◌then◌else◌, text_eq_refl, ok-injective, ℕ, ◌≡◌, refl, sym, ap, ◌∙◌, ◌≢◌, true, false, List, [],
  ◌∷◌, ◌==◌, ==_iff, arith, All, IsByte, Text, Bytes, text_eq, get_elem?, none, some, ok,
}
use slimhub_v.Prelude.Dict.{lookup}
use slimhub_v.Protocol.Mac.{normalize_mac}
use slimhub_v.Protocol.Command.{strong_enter, strong_exit}
use slimhub_v.Protocol.Rawdata.{RawDataPacket}
use slimhub_v.Protocol.Frame.{rawdata, ParsedFrame, parse_frame}
use slimhub_v.Events.{RawDataEvent, CommandEvent, text_or, option_or}
use slimhub_v.Unitspace.{
  UnitspaceStatus, remember, command_event, is_enter_signal, handle, handle_signal,
}
use slimhub_v.Unitspace.Commands.{handle_enter_move}
use slimhub_v.Config.{DeviceConfig, default_location, is_empty, load}
use slimhub_v.Config.Device.{text_or_kept}
use slimhub_v.Config.Updates.{load-IsConfig}
use slimhub_v.Ble.Registry.{DeviceRegistry, get, register_alias}
use slimhub_v.Ble.Registry.Routing.{get-register_alias}
use slimhub_v.Daemon.{SlimHubDaemon, raw_event, handle_frame}
use slimhub_v.Daemon.Frames.{IsSound, parse_frame-mac}
use slimhub_v.Daemon.Presence.{handle_frame-delivers}
use slimhub_v.Daemon.Delivery.{with_commands-nil, inbox, delivered, with_commands}

-- A node that is not the remembered one shows presence and an enter signal: the two commands.
handle_moves :
    (s : UnitspaceStatus) (event : RawDataEvent) (p : Text)
    → normalize_mac event.mac ≡ ok event.mac
    → event.packet.flag_human_presence ≡ 1
    → is_enter_signal event.packet.detected ≡ true
    → s.last_address ≡ some p
    → text_eq event.mac p ≡ false
    → handle s event
      ≡ ok (
        command_event event.mac strong_enter (text_or event.location default_location)
            ∷ command_event p strong_exit (option_or s.last_location default_location)
            ∷ [],
        remember event.mac (text_or event.location default_location) event.timestamp s,
      )
unfolding handle handle_signal
handle_moves s event p mac shown enters last other =
    rw
      (
        (==_iff event.packet.flag_human_presence 1).1 shown,
        mac,
        enters,
        handle_enter_move event.mac (text_or event.location default_location) event.timestamp s p
            last other,
      )
      refl

pub eq_of_ne : (i j : ℕ) → i ≢ j → (i == j) ≡ false
eq_of_ne i j ne = ground (arith, ==_iff i j)

-- The two commands that the estimator sends.
module _ (registry : DeviceRegistry) (enter_command exit_command : CommandEvent) (i j : ℕ)
    (ne : i ≢ j) (here : get registry enter_command.address ≡ ok (some i))
    (there : get registry exit_command.address ≡ ok (some j)) where
  inbox_both :
      (k : ℕ)
      → inbox registry k (enter_command ∷ exit_command ∷ []) ≡ (
          let last = (if j == k then exit_command ∷ [] else []) in
          if i == k then enter_command ∷ last else last)
  unfolding inbox
  inbox_both k = rw (here, there) refl

  delivered_both :
      delivered registry (enter_command ∷ exit_command ∷ []) ≡ enter_command ∷ exit_command ∷ []
  unfolding delivered
  delivered_both = rw (here, there) refl

  inbox_enter : inbox registry i (enter_command ∷ exit_command ∷ []) ≡ enter_command ∷ []
  inbox_enter = inbox_both i ∙ rw ((==_iff i i).1 refl, eq_of_ne j i (λ e. ne (sym e))) refl

  inbox_exit : inbox registry j (enter_command ∷ exit_command ∷ []) ≡ exit_command ∷ []
  inbox_exit = inbox_both j ∙ rw ((==_iff j j).1 refl, eq_of_ne i j ne) refl

  inbox_other : (k : ℕ) → i ≢ k → j ≢ k → inbox registry k (enter_command ∷ exit_command ∷ []) ≡ []
  inbox_other k ne_i ne_j = inbox_both k ∙ rw (eq_of_ne i k ne_i, eq_of_ne j k ne_j) refl

get_registered :
    (r r' : DeviceRegistry) (mac source_address n p : Text) (i j : ℕ)
    → normalize_mac mac ≡ ok mac
    → normalize_mac source_address ≡ ok n
    → normalize_mac p ≡ ok p
    → lookup n r.sessions ≡ some i
    → lookup mac r.sessions ≡ none
    → register_alias r mac source_address ≡ ok r'
    → get r p ≡ ok (some j)
    → text_eq mac p ≡ false
    → (get r' mac ≡ ok (some i)) × (get r' p ≡ ok (some j))
unfolding get
get_registered r r' mac source_address n p i j fixed norm normal here alias made there other = (
  get-register_alias r r' mac source_address mac n mac mac i fixed norm here made fixed
      ∙ rw (text_eq_refl mac, alias) refl,
  get-register_alias r r' mac source_address mac n p p i fixed norm here made normal
      ∙ rw other (rw normal at there),
)

-- The location of a config that a sound daemon loads is not empty.
located :
    (d : SlimHubDaemon) (mac : Text) (config : DeviceConfig)
    → IsSound d
    → normalize_mac mac ≡ ok mac
    → load d.files mac ≡ ok config
    → text_or config.location default_location ≡ config.location
located d mac config h fixed loads =
    let (_, loads', is_config, _) = load-IsConfig d.files mac mac h.consistent fixed in
    text_or_kept config.location default_location (
      ap (λ (c : DeviceConfig). is_empty c.location) (ok-injective _ _ (sym loads ∙ loads'))
      ∙ is_config.located)

abbrev pub moved_commands : ParsedFrame → DeviceConfig → Text → UnitspaceStatus → List CommandEvent
moved_commands frame config p status =
    command_event frame.mac strong_enter config.location
    ∷ command_event p strong_exit (option_or status.last_location default_location)
    ∷ []

-- If a sound daemon remembers a node p, and bytes that parse to a frame of another node come from a
-- session i, with presence and an enter signal, while p leads to a session j other than i, and the
-- frame's address is not itself that of a session: the frame is handled without an error, and exactly
-- two commands are sent. The session i, if the heap has it, has strong_enter for the frame's node at the
-- end of its queue, with the location of the node's config; j has strong_exit for p, with the location
-- remembered for it; any other session k is as it was. The estimator remembers the frame's node.
pub enter_moves :
    (now : ℕ) (source_address n p : Text) (bytes : Bytes) (frame : ParsedFrame)
    (packet : RawDataPacket) (i j k : ℕ) (d : SlimHubDaemon)
    → IsSound d
    → All IsByte bytes
    → parse_frame bytes ≡ ok frame
    → frame.parsed ≡ rawdata packet
    → packet.flag_human_presence ≡ 1
    → is_enter_signal packet.detected ≡ true
    → normalize_mac source_address ≡ ok n
    → lookup n d.central.registry.sessions ≡ some i
    → lookup frame.mac d.central.registry.sessions ≡ none
    → d.estimator.last_address ≡ some p
    → text_eq frame.mac p ≡ false
    → get d.central.registry p ≡ ok (some j)
    → i ≢ j
    → i ≢ k
    → j ≢ k
    → (config : DeviceConfig) × (d' : SlimHubDaemon) × (load d.files frame.mac ≡ ok config)
      × (handle_frame now source_address frame d
          ≡ ok (moved_commands frame config p d.estimator, d'))
      × (d'.estimator ≡ remember frame.mac config.location now d.estimator)
      × (get_elem? d'.central.heap i
          ≡ with_commands
              (command_event frame.mac strong_enter config.location ∷ [])
              (get_elem? d.central.heap i))
      × (get_elem? d'.central.heap j
          ≡ with_commands
              (command_event p strong_exit (option_or d.estimator.last_location default_location)
                ∷ [])
              (get_elem? d.central.heap j))
      × (get_elem? d'.central.heap k ≡ get_elem? d.central.heap k)
enter_moves now source_address n p bytes frame packet i j k d h below e of_data shown enters norm
      here alias last other there ne ne_i ne_j =
    let fixed = parse_frame-mac bytes frame below e in
    let (config, registry, commands, status, d', loads, made, handled, sent, remembers, queued) =
      handle_frame-delivers now source_address n bytes frame packet d h below e of_data norm in
    let both : (commands, status) ≡ (
      moved_commands frame config p d.estimator,
      remember frame.mac config.location now d.estimator,
    ) =
      ok-injective _ _ (
        sym handled
        ∙ handle_moves d.estimator (raw_event now frame packet config) p fixed shown enters last
            other
        ∙ rw (located d frame.mac config h fixed loads) refl) in
    let sent_both = ap (λ (r : List CommandEvent × UnitspaceStatus). r.0) both in
    let (to_i, to_j) =
      get_registered d.central.registry registry frame.mac source_address n p i j fixed norm
        (h.tracking p last) here alias made there other in
    let a = command_event frame.mac strong_enter config.location in
    let b = command_event p strong_exit (option_or d.estimator.last_location default_location) in
    let at_queue : (m : ℕ) (l : List CommandEvent)
        → inbox registry m (a ∷ b ∷ []) ≡ l
        → get_elem? d'.central.heap m ≡ with_commands l (get_elem? d.central.heap m) =
      λ m l same.
        queued m
        ∙ ap (λ (cs : List CommandEvent). with_commands cs (get_elem? d.central.heap m))
            (ap (inbox registry m) sent_both ∙ same) in
    (
      config,
      d',
      loads,
      sent
          ∙ ap (λ (cs : List CommandEvent). ok (cs, d'))
              (ap (delivered registry) sent_both ∙ delivered_both registry a b i j ne to_i to_j),
      remembers ∙ ap (λ (r : List CommandEvent × UnitspaceStatus). r.1) both,
      at_queue i (a ∷ []) (inbox_enter registry a b i j ne to_i to_j),
      at_queue j (b ∷ []) (inbox_exit registry a b i j ne to_i to_j),
      at_queue k [] (inbox_other registry a b i j ne to_i to_j k ne_i ne_j)
          ∙ with_commands-nil (get_elem? d.central.heap k),
    )
