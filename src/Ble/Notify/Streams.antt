-- ===== src/Ble/Notify/Streams.antt =====
-- What a node sends is what the hub's handler receives.
use slimhub_v.Prelude.{
  ℕ, ◌+◌, ◌≤◌, ◌≡◌, refl, sym, ap, ◌∙◌, List, [], ◌∷◌, ◌++◌, arith, length, concat, All, map,
  append-nil, Text, Bytes, Result, ok, err,
}
use slimhub_v.Protocol.Mac.RoundTrip.{format_mac-mac_to_bytes}
use slimhub_v.Protocol.Frame.{ParsedFrame, ljust, from_le, build_frame, parse_frame}
use slimhub_v.Protocol.Frame.Layout.{
  length-layout, length-ljust, length_field-layout, from_le-to_le,
}
use slimhub_v.Protocol.Frame.RoundTrip.{build_frame-IsBuilt}
use slimhub_v.Protocol.Assembler.{FrameAssembler, push, push_all}
use slimhub_v.Protocol.Assembler.Loop.{announced}
use slimhub_v.Protocol.Assembler.Streams.{IsFrame, push_all_stream}
use slimhub_v.Ble.Notify.{keep_parsed, parse_all, handle_notify, notify_all}

keep-append :
    (r : Result ParsedFrame) (xs ys : List ParsedFrame)
    → keep_parsed r xs ++ ys ≡ keep_parsed r (xs ++ ys)
keep-append (ok frame) xs ys = refl
keep-append (err e) xs ys = refl

parse_all-append : (xs ys : List Bytes) → parse_all (xs ++ ys) ≡ parse_all xs ++ parse_all ys
unfolding parse_all
parse_all-append [] ys = refl
parse_all-append (bytes ∷ xs) ys =
    ap (keep_parsed (parse_frame bytes)) (parse_all-append xs ys)
    ∙ sym (keep-append (parse_frame bytes) (parse_all xs) (parse_all ys))

-- The handler over chunks is the assembler over chunks, then the parser over its frames.
notify_all-push_all :
    (a : FrameAssembler) (chunks : List Bytes)
    → notify_all a chunks ≡ (parse_all (push_all a chunks).0, (push_all a chunks).1)
unfolding notify_all push_all parse_all handle_notify
notify_all-push_all a [] = refl
notify_all-push_all a (chunk ∷ chunks) =
    let b = (push a chunk).1 in
    ap (λ (r : List ParsedFrame × FrameAssembler). (parse_all (push a chunk).0 ++ r.0, r.1))
      (notify_all-push_all b chunks)
    ∙ ap (λ (fs : List ParsedFrame). (fs, (push_all b chunks).1))
        (sym (parse_all-append (push a chunk).0 (push_all b chunks).0))

-- What a node sends: arguments of `build_frame`, the frame, and what `parse_frame` makes of it.
pub record Sent : Type 0 where
  pub mac : Text
  pub packet_type : Text
  pub payload : Bytes
  pub bytes : Bytes
  pub frame : ParsedFrame
  pub built : build_frame mac packet_type payload ≡ ok bytes
  pub read : parse_frame bytes ≡ ok frame

built-IsFrame :
    (max_frame_len : ℕ) (mac packet_type : Text) (payload bytes : Bytes)
    → build_frame mac packet_type payload ≡ ok bytes
    → length bytes ≤ max_frame_len
    → IsFrame max_frame_len bytes
built-IsFrame max_frame_len mac packet_type payload bytes h fits =
    let b = build_frame-IsBuilt mac packet_type payload bytes h in
    let (six, _, _) = format_mac-mac_to_bytes mac b.m b.has_mac in
    let eight = length-ljust 8 packet_type b.type_fits in
    let long = length-layout b.m (ljust 8 packet_type) payload six eight in
    let field = length_field-layout b.m (ljust 8 packet_type) payload six eight in
    let number = from_le-to_le (length payload) b.payload_fits in
    let len : length bytes ≡ 18 + length payload = ap length b.laid_out ∙ long in
    let same : announced bytes ≡ 18 + length payload =
      ap announced b.laid_out
      ∙ ap (λ (s : Bytes). 18 + from_le s) field
      ∙ ap (λ (n : ℕ). 18 + n) number in
    (omega arith, len ∙ sym same, fits)

sent-IsFrame :
    (m : ℕ) (sent : List Sent)
    → All (λ s. length s.bytes ≤ m) sent
    → All (IsFrame m) (map (λ (s : Sent). s.bytes) sent)
sent-IsFrame m [] h = tt
sent-IsFrame m (s ∷ sent) (fits, h) =
    (built-IsFrame m s.mac s.packet_type s.payload s.bytes s.built fits, sent-IsFrame m sent h)

parse_all-sent :
    (sent : List Sent)
    → parse_all (map (λ (s : Sent). s.bytes) sent) ≡ map (λ (s : Sent). s.frame) sent
unfolding parse_all
parse_all-sent [] = refl
parse_all-sent (s ∷ sent) = rw (s.read, parse_all-sent sent) refl

-- Frames that `build_frame` makes and `parse_frame` accepts, within the assembler's limit, sent
-- one after the other and notified in chunks that are cut at any places, are handed on as the frames
-- that `parse_frame` reads, each once and in their order, and the buffer is empty in the end.
pub notify_all_stream :
    (m : ℕ) (sent : List Sent) (chunks : List Bytes)
    → All (λ s. length s.bytes ≤ m) sent
    → concat chunks ≡ concat (map (λ (s : Sent). s.bytes) sent)
    → notify_all (record { buffer = []; max_frame_len = m }) chunks
      ≡ (map (λ (s : Sent). s.frame) sent, record { buffer = []; max_frame_len = m })
notify_all_stream m sent chunks fits cut =
    let bytes = map (λ (s : Sent). s.bytes) sent in
    notify_all-push_all (record { buffer = []; max_frame_len = m }) chunks
    ∙ ap (λ (r : List Bytes × FrameAssembler). (parse_all r.0, r.1))
        (push_all_stream m bytes chunks [] (sent-IsFrame m sent fits) (omega arith)
          (cut ∙ sym (append-nil (concat bytes))))
    ∙ ap
        (λ (fs : List ParsedFrame).
          (fs, let a : FrameAssembler = record { buffer = []; max_frame_len = m } in a))
        (parse_all-sent sent)
