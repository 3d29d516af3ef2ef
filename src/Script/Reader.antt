-- ===== src/Script/Reader.antt =====
-- The reader against the daemon's notify handler.
use mathlib.Core.List.{map-append}
use slimhub_v.Prelude.{
  concat, append_assoc, ◌≡◌, refl, sym, ap, ◌∙◌, inl, inr, List, [], ◌∷◌, ◌++◌, map, Bytes,
  Result-cases,
}
use slimhub_v.Protocol.Frame.{parse_frame}
use slimhub_v.Protocol.Frame.Describe.{Description, describe_frame}
use slimhub_v.Protocol.Dump.{hex_dump, undump, undump-hex_dump}
use slimhub_v.Protocol.Assembler.{FrameAssembler, push}
use slimhub_v.Ble.Notify
use slimhub_v.Script.{Logline, received, parsed, parse_error, lines_for, handle_notify, notify_all}

-- What is logged of frames that parse.
unfoldable pub described : List Logline → List Description
described [] = []
described (parsed d ∷ lines) = d ∷ described lines
described (parse_error e dump ∷ lines) = described lines
described (received len dump ∷ lines) = described lines

pub described-append : (xs ys : List Logline) → described (xs ++ ys) ≡ described xs ++ described ys
unfolding described
described-append [] ys = refl
described-append (parsed d ∷ xs) ys = ap (◌∷◌ d) (described-append xs ys)
described-append (parse_error e dump ∷ xs) ys = described-append xs ys
described-append (received len dump ∷ xs) ys = described-append xs ys

described-lines_for :
    (frames : List Bytes)
    → described (lines_for frames) ≡ map describe_frame (Notify.parse_all frames)
unfolding described lines_for Notify.parse_all
described-lines_for [] = refl
described-lines_for (bytes ∷ frames) = elim (Result-cases (parse_frame bytes)) [
  | inl (frame, e) ↦ rw e (ap (◌∷◌ (describe_frame frame)) (described-lines_for frames))
  | inr (error, e) ↦ rw e (described-lines_for frames)
]

-- Over any chunks, the reader describes exactly the frames that the daemon's session handles, in their
-- order, and leaves the assembler as the session does.
pub notify_all-described :
    (a : FrameAssembler) (chunks : List Bytes)
    → (described (notify_all a chunks).0 ≡ map describe_frame (Notify.notify_all a chunks).0)
      × ((notify_all a chunks).1 ≡ (Notify.notify_all a chunks).1)
unfolding described notify_all handle_notify Notify.notify_all Notify.handle_notify
notify_all-described a [] = (refl, refl)
notify_all-described a (chunk ∷ chunks) =
    let (frames, a') = push a chunk in
    let (same, left) = notify_all-described a' chunks in
    (
      described-append (lines_for frames) (notify_all a' chunks).0
          ∙ rw (described-lines_for frames, same)
              (sym (
                map-append describe_frame (Notify.parse_all frames)
                  (Notify.notify_all a' chunks).0)),
      left,
    )

-- The bytes of the chunks that a log shows.
unfoldable pub received_bytes : List Logline → Bytes
received_bytes [] = []
received_bytes (received len dump ∷ lines) = undump dump ++ received_bytes lines
received_bytes (parsed d ∷ lines) = received_bytes lines
received_bytes (parse_error e dump ∷ lines) = received_bytes lines

pub received_bytes-append :
    (xs ys : List Logline) → received_bytes (xs ++ ys) ≡ received_bytes xs ++ received_bytes ys
unfolding received_bytes
received_bytes-append [] ys = refl
received_bytes-append (received len dump ∷ xs) ys =
    ap (λ (l : Bytes). undump dump ++ l) (received_bytes-append xs ys)
    ∙ sym (append_assoc (undump dump) (received_bytes xs) (received_bytes ys))
received_bytes-append (parsed d ∷ xs) ys = received_bytes-append xs ys
received_bytes-append (parse_error e dump ∷ xs) ys = received_bytes-append xs ys

received_bytes-lines_for : (frames : List Bytes) → received_bytes (lines_for frames) ≡ []
unfolding received_bytes lines_for
received_bytes-lines_for [] = refl
received_bytes-lines_for (bytes ∷ frames) = elim (Result-cases (parse_frame bytes)) [
  | inl (frame, e) ↦ rw e (received_bytes-lines_for frames)
  | inr (error, e) ↦ rw e (received_bytes-lines_for frames)
]

-- The log keeps every byte that the node sent, in order, whether its frames parse or not: the dumps of
-- the chunks spell them.
pub notify_all-received :
    (a : FrameAssembler) (chunks : List Bytes)
    → received_bytes (notify_all a chunks).0 ≡ concat chunks
unfolding received_bytes notify_all handle_notify
notify_all-received a [] = refl
notify_all-received a (chunk ∷ chunks) =
    let (frames, a') = push a chunk in
    ap (λ (l : Bytes). undump (hex_dump chunk) ++ l)
      (received_bytes-append (lines_for frames) (notify_all a' chunks).0
        ∙ ap (λ (l : Bytes). l ++ received_bytes (notify_all a' chunks).0)
            (received_bytes-lines_for frames)
        ∙ notify_all-received a' chunks)
    ∙ ap (λ (l : Bytes). l ++ concat chunks) (undump-hex_dump chunk)
