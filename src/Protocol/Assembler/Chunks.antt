-- ===== src/Protocol/Assembler/Chunks.antt =====
-- The assembler does not see where a chunk ends, holds a bounded rest, and finds the frames of a
-- stream however the stream is cut.
use slimhub_v.Prelude.{
  ℕ, ◌+◌, ◌≤◌, ◌<◌, ◌⊎◌, inl, inr, ◌≡◌, refl, sym, ap, ◌∙◌, List, [], ◌∷◌, ◌++◌, append_assoc,
  append-nil, arith, length, length-append, length-drop, take, drop, take-append_le, drop-append_le,
  concat, Bytes,
}
use slimhub_v.Protocol.Frame.{from_le}
use slimhub_v.Protocol.Assembler.{
  FrameAssembler, stop, skip, emit, examine, drained, push, push_all,
}
use slimhub_v.Protocol.Assembler.Loop.{
  announced, examine-IsRound, drained-stop, drained-skip, drained-emit, drained_induction,
}

pub announced-append : (b c : Bytes) → 16 ≤ length b → announced (b ++ c) ≡ announced b
announced-append b c h =
    ap (λ (s : Bytes). 18 + from_le (take 2 s)) (drop-append_le 14 b c (omega arith))
    ∙ ap (λ (s : Bytes). 18 + from_le s)
        (take-append_le 2 (drop 14 b) c (omega (arith, length-drop {0} 14 b)))

examine_skip : (m : ℕ) (b : Bytes) → 18 ≤ length b → m < announced b → examine m b ≡ skip
unfolding examine
examine_skip m b long big = ground arith

pub examine_emit :
    (m : ℕ) (b : Bytes)
    → 18 ≤ length b
    → announced b ≤ m
    → announced b ≤ length b
    → examine m b ≡ emit (announced b)
unfolding examine
examine_emit m b long fits there = ground arith

module _ (m : ℕ) (b c : Bytes) where
  examine-append_skip : examine m b ≡ skip → examine m (b ++ c) ≡ skip
  examine-append_skip e =
      let (long, big) = (examine-IsRound m b).on_skip e in
      examine_skip m (b ++ c) (omega (arith, length-append {0} b c))
        (omega (arith, announced-append b c (omega arith)))

  examine-append_emit : (n : ℕ) → examine m b ≡ emit n → examine m (b ++ c) ≡ emit n
  examine-append_emit n e =
      let (same, long, there, fits) = (examine-IsRound m b).on_emit n e in
      let announce : announced (b ++ c) ≡ announced b = announced-append b c (omega arith) in
      examine_emit m (b ++ c) (omega (arith, length-append {0} b c)) (omega arith)
        (omega (arith, length-append {0} b c))
      ∙ ap emit (announce ∙ sym same)

-- First the frames of `b`, then those of what is left of it with `c` behind.
abbrev After : ℕ → Bytes → List Bytes × Bytes → Type 0
After m b r =
    (c : Bytes) → drained m (b ++ c) ≡ (r.0 ++ (drained m (r.1 ++ c)).0, (drained m (r.1 ++ c)).1)

drained-append :
    (m : ℕ) (b c : Bytes)
    → drained m (b ++ c) ≡ (
      (drained m b).0 ++ (drained m ((drained m b).1 ++ c)).0,
      (drained m ((drained m b).1 ++ c)).1,
    )
drained-append m b =
    drained_induction m (After m) (λ b e c. refl)
      (λ b r e ih c.
        drained-skip m (b ++ c) (examine-append_skip m b c e)
        ∙ ap (drained m) (drop-append_le 1 b c (omega (arith, ((examine-IsRound m b).on_skip e).0)))
        ∙ ih c)
      (λ b r n e ih c.
        let (_, _, there, _) = (examine-IsRound m b).on_emit n e in
        drained-emit m (b ++ c) n (examine-append_emit m b c n e)
        ∙ (λ i. (
          take-append_le n b c there i ∷ (drained m (drop-append_le n b c there i)).0,
          (drained m (drop-append_le n b c there i)).1,
        ))
        ∙ ap (λ (p : List Bytes × Bytes). (take n b ∷ p.0, p.1)) (ih c))
      (length b) b (omega arith)

-- What the loop leaves: less than a header, or less than the frame that its header announces.
abbrev pub IsSettled : FrameAssembler → Type 0
IsSettled a = examine a.max_frame_len a.buffer ≡ stop

drained-settles : (m : ℕ) (b : Bytes) → examine m (drained m b).1 ≡ stop
drained-settles m b =
    drained_induction m (λ _ r. examine m r.1 ≡ stop) (λ b e. e) (λ b r e ih. ih) (λ b r n e ih. ih)
      (length b) b (omega arith)

-- Every push ends its loop by the loop's own test.
pub push-IsSettled : (a : FrameAssembler) (chunk : Bytes) → IsSettled (push a chunk).1
unfolding push
push-IsSettled a chunk = drained-settles a.max_frame_len (a.buffer ++ chunk)

bounded_of_settled :
    (m : ℕ) (b : Bytes)
    → (length b < 18) ⊎ ((announced b ≤ m) × (length b < announced b))
    → (length b < 18) ⊎ (length b < m)
bounded_of_settled m b (inl h) = inl h
bounded_of_settled m b (inr (fits, h)) = inr (omega arith)

-- After a push the buffer holds fewer bytes than a frame may have: fewer than 18, or fewer than
-- `max_frame_len`. The limit itself is the one before.
pub push-bounded :
    (a : FrameAssembler) (chunk : Bytes)
    → ((length (push a chunk).1.buffer < 18)
        ⊎ (length (push a chunk).1.buffer < (push a chunk).1.max_frame_len))
      × ((push a chunk).1.max_frame_len ≡ a.max_frame_len)
push-bounded a chunk =
    let kept : (push a chunk).1.max_frame_len ≡ a.max_frame_len = unfold push in refl in
    let settled = (examine-IsRound _ (push a chunk).1.buffer).on_stop (push-IsSettled a chunk) in
    (bounded_of_settled _ _ settled, kept)

-- Pushing two chunks, one after the other, takes the frames that one push of both together takes,
-- and leaves the same assembler.
pub push-append :
    (a : FrameAssembler) (b c : Bytes)
    → push a (b ++ c)
      ≡ (let (frames, a') = push a b in let (more, a'') = push a' c in (frames ++ more, a''))
unfolding push
push-append a b c =
    ap (λ (r : List Bytes × Bytes). (r.0, record a { buffer = r.1 }))
      (ap (drained a.max_frame_len) (sym (append_assoc a.buffer b c))
        ∙ drained-append a.max_frame_len (a.buffer ++ b) c)

-- If the loop has nothing to do on the buffer, as at the start and after every push, then, however
-- a stream is cut into chunks, the frames taken and the assembler left are those of one push of
-- the whole stream.
pub push_all-concat :
    (chunks : List Bytes) (a : FrameAssembler)
    → IsSettled a
    → push_all a chunks ≡ push a (concat chunks)
unfolding push_all
push_all-concat [] a h =
    unfold push in
    ap (λ (r : List Bytes × Bytes). (r.0, record a { buffer = r.1 }))
      (sym (
        ap (drained a.max_frame_len) (append-nil a.buffer)
        ∙ drained-stop a.max_frame_len a.buffer h))
push_all-concat (chunk ∷ chunks) a h =
    ap (λ (r : List Bytes × FrameAssembler). ((push a chunk).0 ++ r.0, r.1))
      (push_all-concat chunks (push a chunk).1 (push-IsSettled a chunk))
    ∙ sym (push-append a chunk (concat chunks))
