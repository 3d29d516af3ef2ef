-- ===== src/Script/Loop/Lines.antt =====
-- What the reader logs of a connection: what its node has sent.
use slimhub_v.Prelude.{
  Bool-cases, inl, inr, ◌||◌, All, length, ℕ, suc, ◌≤◌, ◌≡◌, refl, ap, ◌∙◌, sym, Bool, true, false,
  List, [], ◌∷◌, ◌++◌, append_assoc, append-nil, arith, Bytes, map, concat, Option,
}
use slimhub_v.Protocol.Frame.Describe.{Description, describe_frame}
use slimhub_v.Protocol.Frame.{ParsedFrame}
use slimhub_v.Protocol.Assembler.{FrameAssembler}
use slimhub_v.Ble.Notify.Streams.{Sent, notify_all_stream}
use slimhub_v.Script.{Peer, handle_notify, notify_all}
use slimhub_v.Script.Reader.{described, described-append, notify_all-described}
use slimhub_v.Script.Loop.{
  Place, connecting, new_assembler, returned, reading, unsubscribing, Central, Answer, is_notified,
  resume_at, notify, Event, resumes, notifies, shuts_down, disconnects, perform, perform_all,
}
use slimhub_v.Script.Loop.Ending.{resumptions}

-- The chunks that are notified among some events.
unfoldable pub chunks_of : List Event → List Bytes
chunks_of [] = []
chunks_of (notifies chunk ∷ events) = chunk ∷ chunks_of events
chunks_of (resumes answer ∷ events) = chunks_of events
chunks_of (shuts_down ∷ events) = chunks_of events
chunks_of (disconnects ∷ events) = chunks_of events

-- The places from which a wait can still end without the handler being dropped.
abbrev left_in : Place → ℕ
left_in reading = 1
left_in _ = 0

abbrev is_connected : Place → Bool
is_connected reading = true
is_connected unsubscribing = true
is_connected _ = false

abbrev with_chunk : Bytes → Central → Central
with_chunk chunk c =
    let (lines, assembler) = handle_notify c.assembler chunk in
    record c { assembler = assembler; lines = c.lines ++ lines }

connected_notified : (place : Place) → is_connected place ≡ true → is_notified place ≡ true
connected_notified reading on = refl
connected_notified unsubscribing on = refl
connected_notified _ on = absurd (ground arith)

notify_connected :
    (chunk : Bytes) (c : Central)
    → is_connected c.place ≡ true
    → notify chunk c ≡ with_chunk chunk c
unfolding notify
notify_connected chunk c on = rw (connected_notified c.place on) refl

-- What stays when a wait of a connection ends.
record Stays (k : ℕ) (c c' : Central) : Type 0 where
  connected : is_connected c'.place ≡ true
  left : k ≤ left_in c'.place
  lines : c'.lines ≡ c.lines
  assembler : c'.assembler ≡ c.assembler

resume_at-Stays :
    (place : Place) (answer : Answer) (c : Central) (k : ℕ)
    → c.place ≡ place
    → suc k ≤ left_in place
    → Stays k c (resume_at place answer c)
unfolding resume_at
resume_at-Stays reading answer c k e le = elim (Bool-cases (c.stop_event || c.disconnected_event)) [
  | inl set ↦
      rw set (record { connected = refl; left = omega arith; lines = refl; assembler = refl })
  | inr unset ↦ rw unset (record {
    connected = ap is_connected e;
    left = ground arith;
    lines = refl;
    assembler = refl;
  })
]
resume_at-Stays _ answer c k e le = absurd (omega arith)

-- While a connection lasts, its lines are those of the chunks that it notifies, in their order, put
-- together by one assembler; nothing else logs one.
connected_lines :
    (events : List Event) (c : Central)
    → is_connected c.place ≡ true
    → resumptions events ≤ left_in c.place
    → (perform_all events c).lines ≡ c.lines ++ (notify_all c.assembler (chunks_of events)).0
unfolding perform_all perform resumptions chunks_of notify_all notify
connected_lines [] c on le = sym (append-nil c.lines)
connected_lines (notifies chunk ∷ events) c on le =
    let (lines, assembler) = handle_notify c.assembler chunk in
    ap (λ (d : Central). (perform_all events d).lines) (notify_connected chunk c on)
    ∙ connected_lines events (record c { assembler = assembler; lines = c.lines ++ lines }) on le
    ∙ append_assoc c.lines lines (notify_all assembler (chunks_of events)).0
connected_lines (resumes answer ∷ events) c on le =
    let s = resume_at-Stays c.place answer c (resumptions events) refl le in
    connected_lines events (resume_at c.place answer c) s.connected s.left
    ∙ rw (s.lines, s.assembler) refl
connected_lines (shuts_down ∷ events) c on le =
    connected_lines events (record c { stop_event = true }) on le
connected_lines (disconnects ∷ events) c on le =
    connected_lines events (record c { disconnected_event = true }) on le

-- Whatever a reader did before, a connection that is made and subscribed to describes every frame of its
-- node once, in the order in which they were sent: if the frames are built by `build_frame`, parse, and
-- fit the assembler, and the chunks notified are these frames, cut at any places, until one wait of the
-- connection at most has ended.
pub connection_describes :
    (sent : List Sent) (events : List Event) (c : Central) (first second : Option Peer)
    → c.place ≡ connecting
    → resumptions events ≤ 1
    → All (λ s. length s.bytes ≤ 4096) sent
    → concat (chunks_of events) ≡ concat (map (λ (s : Sent). s.bytes) sent)
    → described
        (perform_all (resumes (returned first) ∷ resumes (returned second) ∷ events) c).lines
      ≡ described c.lines ++ map describe_frame (map (λ (s : Sent). s.frame) sent)
unfolding perform_all perform resume_at
connection_describes sent events c first second here le fits cut =
    let at : Central = record c { place = reading; assembler = new_assembler } in
    let chunks = chunks_of events in
    let both = resumes (returned first) ∷ resumes (returned second) ∷ events in
    let reads : perform_all both c ≡ perform_all events at =
      ap (λ (p : Place). perform_all both (record c { place = p })) here in
    ap (λ (d : Central). described d.lines) reads
    ∙ ap described (connected_lines events at refl le)
    ∙ described-append c.lines (notify_all new_assembler chunks).0
    ∙ ap (λ (l : List Description). described c.lines ++ l)
        ((notify_all-described new_assembler chunks).0
          ∙ ap (λ (r : List ParsedFrame × FrameAssembler). map describe_frame r.0)
              (notify_all_stream 4096 sent chunks fits cut))
