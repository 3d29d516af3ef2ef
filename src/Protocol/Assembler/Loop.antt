-- ===== src/Protocol/Assembler/Loop.antt =====
-- The loop of `push` as equations without fuel: the rounds, the end, and what every taken frame is.
use slimhub_v.Prelude.{
  ℕ, zero, suc, ◌+◌, ◌≤◌, ◌<◌, ◌⊎◌, inl, inr, ◌≡◌, refl, ap, ◌∙◌, List, [], ◌∷◌, arith, length,
  length-drop, take, drop, slice, Bytes,
}
use slimhub_v.Protocol.Frame.{from_le}
use slimhub_v.Protocol.Assembler.{Action, stop, skip, emit, examine, drain, drained}

-- The length that the header of a buffer announces.
abbrev pub announced : Bytes → ℕ
announced buffer = 18 + from_le (slice 14 16 buffer)

-- The test of a round, by what makes it.
pub record IsRound (max_frame_len : ℕ) (buffer : Bytes) (action : Action) : Type 0 where
  pub on_stop :
      action ≡ stop
      → (length buffer < 18)
        ⊎ ((announced buffer ≤ max_frame_len) × (length buffer < announced buffer))
  pub on_skip : action ≡ skip → (18 ≤ length buffer) × (max_frame_len < announced buffer)
  pub on_emit :
      (n : ℕ)
      → action ≡ emit n
      → (n ≡ announced buffer) × (18 ≤ n) × (n ≤ length buffer) × (n ≤ max_frame_len)

pub examine-IsRound : (m : ℕ) (buffer : Bytes) → IsRound m buffer (examine m buffer)
unfolding examine
examine-IsRound m buffer = record {
  on_stop = λ e. ground arith;
  on_skip = λ e. ground arith;
  on_emit = λ n e. ground arith;
}

Action-cases : (a : Action) → (a ≡ stop) ⊎ ((a ≡ skip) ⊎ ((n : ℕ) × (a ≡ emit n)))
Action-cases stop = inl refl
Action-cases skip = inr (inl refl)
Action-cases (emit n) = inr (inr (n, refl))

pub length-skip :
    (m f : ℕ) (buffer : Bytes)
    → examine m buffer ≡ skip
    → length buffer ≤ suc f
    → length (drop 1 buffer) ≤ f
length-skip m f buffer e h = omega (arith, length-drop {0} 1 buffer)

pub length-emit :
    (m f n : ℕ) (buffer : Bytes)
    → examine m buffer ≡ emit n
    → length buffer ≤ suc f
    → length (drop n buffer) ≤ f
length-emit m f n buffer e h =
    let (_, long, _, _) = (examine-IsRound m buffer).on_emit n e in
    omega (arith, length-drop {0} n buffer)

examine_nil : (m : ℕ) → examine m [] ≡ stop
unfolding examine
examine_nil m = refl

-- Fuel beyond the length of the buffer changes nothing.
drain_fuel :
    (f g m : ℕ) (buffer : Bytes)
    → length buffer ≤ f
    → length buffer ≤ g
    → drain f m buffer ≡ drain g m buffer
unfolding drain
drain_fuel zero zero m buffer hf hg = refl
drain_fuel zero (suc g) m [] hf hg = rw (examine_nil m, drain) refl
drain_fuel zero (suc g) m (b ∷ buffer) hf hg = absurd (omega arith)
drain_fuel (suc f) zero m [] hf hg = rw (examine_nil m, drain) refl
drain_fuel (suc f) zero m (b ∷ buffer) hf hg = absurd (omega arith)
drain_fuel (suc f) (suc g) m buffer hf hg = elim (Action-cases (examine m buffer)) [
  | inl e ↦ rw (e, drain) refl
  | inr (inl e) ↦
      rw (e, drain)
        (drain_fuel f g m (drop 1 buffer) (length-skip m f buffer e hf)
          (length-skip m g buffer e hg))
  | inr (inr (n, e)) ↦
      rw (e, drain)
        (ap (λ (r : List Bytes × Bytes). (take n buffer ∷ r.0, r.1))
          (drain_fuel f g m (drop n buffer) (length-emit m f n buffer e hf)
            (length-emit m g n buffer e hg)))
]

-- The rounds of the loop, with no fuel in sight.
module _ (m : ℕ) (buffer : Bytes) where
  round : (fuel : ℕ) → length buffer ≤ suc fuel → drained m buffer ≡ drain (suc fuel) m buffer
  unfolding drained
  round fuel h = drain_fuel (length buffer) (suc fuel) m buffer (omega arith) h

  pub drained-stop : examine m buffer ≡ stop → drained m buffer ≡ ([], buffer)
  drained-stop e = round (length buffer) (omega arith) ∙ (unfold drain in rw (e, drain) refl)

  pub drained-skip : examine m buffer ≡ skip → drained m buffer ≡ drained m (drop 1 buffer)
  drained-skip e =
      round (length buffer) (omega arith)
      ∙ (unfold drain drained in
          rw (e, drain)
            (drain_fuel (length buffer) (length (drop 1 buffer)) m (drop 1 buffer)
              (length-skip m (length buffer) buffer e (omega arith)) (omega arith)))

  pub drained-emit :
      (n : ℕ)
      → examine m buffer ≡ emit n
      → drained m buffer
        ≡ (take n buffer ∷ (drained m (drop n buffer)).0, (drained m (drop n buffer)).1)
  drained-emit n e =
      round (length buffer) (omega arith)
      ∙ (unfold drain drained in
          rw (e, drain)
            (ap (λ (r : List Bytes × Bytes). (take n buffer ∷ r.0, r.1))
              (drain_fuel (length buffer) (length (drop n buffer)) m (drop n buffer)
                (length-emit m (length buffer) n buffer e (omega arith)) (omega arith))))

-- What is true at the end of the loop, and carries over each round from the buffer after it to the
-- buffer before it, is true of every buffer.
pub drained_induction {ℓ} :
    (m : ℕ) (P : Bytes → List Bytes × Bytes → Type ℓ)
    → ((b : Bytes) → examine m b ≡ stop → P b ([], b))
    → ((b : Bytes) (r : List Bytes × Bytes) → examine m b ≡ skip → P (drop 1 b) r → P b r)
    → ((b : Bytes) (r : List Bytes × Bytes) (n : ℕ)
        → examine m b ≡ emit n
        → P (drop n b) r
        → P b (take n b ∷ r.0, r.1))
    → (fuel : ℕ) (b : Bytes) → length b ≤ fuel
    → P b (drained m b)
drained_induction m P on_stop on_skip on_emit zero [] h =
    rw (drained-stop m [] (examine_nil m)) (on_stop [] (examine_nil m))
drained_induction m P on_stop on_skip on_emit zero (x ∷ b) h = absurd (omega arith)
drained_induction m P on_stop on_skip on_emit (suc fuel) b h = elim (Action-cases (examine m b)) [
  | inl e ↦ rw (drained-stop m b e) (on_stop b e)
  | inr (inl e) ↦ rw (drained-skip m b e) (
      on_skip b _ e
        (drained_induction m P on_stop on_skip on_emit fuel (drop 1 b) (length-skip m fuel b e h)))
  | inr (inr (n, e)) ↦ rw (drained-emit m b n e) (
      on_emit b _ n e (
        drained_induction m P on_stop on_skip on_emit fuel (drop n b) (length-emit m fuel n b e h)))
]
