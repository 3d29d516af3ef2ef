-- ===== src/Protocol/Assembler/Streams.antt =====
-- Streams of frames: what the assembler takes from them, and what it can take at all.
use mathlib.Core.List.{Sublistᴰ}
use mathlib.Core.Path.{subst₂}
use slimhub_v.Prelude.{
  ℕ, ◌≤◌, ◌<◌, ◌≡◌, refl, sym, ap, ◌∙◌, List, [], ◌∷◌, ◌++◌, append_assoc, append-nil, arith,
  length, length-append, length-take, take, drop, take-append, take-append-drop, drop-append,
  concat, All, Bytes,
}
use slimhub_v.Protocol.Assembler.{FrameAssembler, stop, emit, examine, drained, push, push_all}
use slimhub_v.Protocol.Assembler.Loop.{
  announced, examine-IsRound, drained-stop, drained-emit, drained_induction,
}
use slimhub_v.Protocol.Assembler.Chunks.{announced-append, examine_emit, push_all-concat}

-- A frame by its length alone: the one that its header announces, within the limit.
abbrev pub IsFrame : ℕ → Bytes → Type 0
IsFrame m frame = (18 ≤ length frame) × (length frame ≡ announced frame) × (length frame ≤ m)

drained-frame :
    (m : ℕ) (frame rest : Bytes)
    → IsFrame m frame
    → drained m (frame ++ rest) ≡ (frame ∷ (drained m rest).0, (drained m rest).1)
drained-frame m frame rest (long, same, fits) =
    let announce : announced (frame ++ rest) ≡ length frame =
      announced-append frame rest (omega arith) ∙ sym same in
    let e : examine m (frame ++ rest) ≡ emit (length frame) =
      examine_emit m (frame ++ rest) (omega (arith, length-append {0} frame rest)) (omega arith)
        (omega (arith, length-append {0} frame rest))
      ∙ ap emit announce in
    drained-emit m (frame ++ rest) (length frame) e ∙ (λ i. (
      take-append (length frame) frame rest refl i
          ∷ (drained m (drop-append (length frame) frame rest refl i)).0,
      (drained m (drop-append (length frame) frame rest refl i)).1,
    ))

drained-frames :
    (m : ℕ) (frames : List Bytes) (tail : Bytes)
    → All (IsFrame m) frames
    → drained m (concat frames ++ tail) ≡ (frames ++ (drained m tail).0, (drained m tail).1)
drained-frames m [] tail h = refl
drained-frames m (frame ∷ frames) tail (hf, h) =
    ap (drained m) (append_assoc frame (concat frames) tail)
    ∙ drained-frame m frame (concat frames ++ tail) hf
    ∙ ap (λ (r : List Bytes × Bytes). (frame ∷ r.0, r.1)) (drained-frames m frames tail h)

examine_short : (m : ℕ) (b : Bytes) → length b < 18 → examine m b ≡ stop
unfolding examine
examine_short m b h = ground arith

-- From an empty buffer, a stream of frames within the limit, cut into chunks at any places, with
-- the beginning of one more frame behind it that is shorter than a header, gives those frames, in
-- their order, and leaves the beginning in the buffer.
pub push_all_stream :
    (m : ℕ) (frames chunks : List Bytes) (tail : Bytes)
    → All (IsFrame m) frames
    → length tail < 18
    → concat chunks ≡ concat frames ++ tail
    → push_all (record { buffer = []; max_frame_len = m }) chunks
      ≡ (frames, record { buffer = tail; max_frame_len = m })
push_all_stream m frames chunks tail h short cut =
    push_all-concat chunks (record { buffer = []; max_frame_len = m })
      (examine_short m [] (omega arith))
    ∙ (unfold push in
        ap
          (λ (r : List Bytes × Bytes).
            (r.0, let a : FrameAssembler = record { buffer = r.1; max_frame_len = m } in a))
          (ap (drained m) cut
            ∙ drained-frames m frames tail h
            ∙ ap (λ (r : List Bytes × Bytes). (frames ++ r.0, r.1))
                (drained-stop m tail (examine_short m tail short))
            ∙ ap (λ (fs : List Bytes). (fs, tail)) (append-nil frames)))

taken-IsFrame :
    (m : ℕ) (b : Bytes) (n : ℕ)
    → (n ≡ announced b) × (18 ≤ n) × (n ≤ length b) × (n ≤ m)
    → IsFrame m (take n b)
taken-IsFrame m b n (same, long, there, fits) =
    let len : length (take n b) ≡ n = length-take n b there in
    let whole : announced (take n b) ≡ announced b =
      sym (announced-append (take n b) (drop n b) (omega arith))
      ∙ ap announced (take-append-drop n b) in
    (omega arith, len ∙ same ∙ sym whole, omega arith)

drained-IsFrame : (m : ℕ) (b : Bytes) → All (IsFrame m) (drained m b).0
drained-IsFrame m b =
    drained_induction m (λ _ r. All (IsFrame m) r.0) (λ b e. tt) (λ b r e ih. ih)
      (λ b r n e ih. (taken-IsFrame m b n ((examine-IsRound m b).on_emit n e), ih)) (length b) b
      (omega arith)

-- Whatever the bytes are, each frame that a push takes has the length that its header announces,
-- and is within the limit.
pub push-IsFrame :
    (a : FrameAssembler) (chunk : Bytes) → All (IsFrame a.max_frame_len) (push a chunk).0
unfolding push
push-IsFrame a chunk = drained-IsFrame a.max_frame_len (a.buffer ++ chunk)

same_sublist : (b : Bytes) → Sublistᴰ b b
same_sublist [] = Sublistᴰ.slnil
same_sublist (x ∷ b) = Sublistᴰ.cons-cons refl (same_sublist b)

sublist_skip : (s b : Bytes) → Sublistᴰ s (drop 1 b) → Sublistᴰ s b
sublist_skip s [] h = h
sublist_skip s (x ∷ b) h = Sublistᴰ.cons h

sublist_front : (front s b : Bytes) → Sublistᴰ s b → Sublistᴰ (front ++ s) (front ++ b)
sublist_front [] s b h = h
sublist_front (x ∷ front) s b h = Sublistᴰ.cons-cons refl (sublist_front front s b h)

drained-Sublist : (m : ℕ) (b : Bytes) → Sublistᴰ (concat (drained m b).0 ++ (drained m b).1) b
drained-Sublist m b =
    drained_induction m (λ b r. Sublistᴰ (concat r.0 ++ r.1) b) (λ b e. same_sublist b)
      (λ b r e ih. sublist_skip _ b ih)
      (λ b r n e ih.
        subst₂ Sublistᴰ (sym (append_assoc (take n b) (concat r.0) r.1)) (take-append-drop n b)
          (sublist_front (take n b) _ _ ih))
      (length b) b (omega arith)

-- Bytes may be dropped, and are never made up or moved: the frames taken and the bytes left stand
-- in the buffered bytes and the chunk, in that order.
pub push-Sublist :
    (a : FrameAssembler) (chunk : Bytes)
    → Sublistᴰ (concat (push a chunk).0 ++ (push a chunk).1.buffer) (a.buffer ++ chunk)
unfolding push
push-Sublist a chunk = drained-Sublist a.max_frame_len (a.buffer ++ chunk)
