-- ===== src/Protocol/Utf8/Laws.antt =====
-- Decoding undoes encoding, and whatever the bytes are, decoding gives text.
use slimhub_v.Prelude.{
  ℕ, zero, suc, ◌+◌, ◌-◌, ◌*◌, ◌<◌, ◌≤◌, ◌⊎◌, ◌≡◌, refl, ap, ◌∙◌, ◌&&◌, [], ◌∷◌, ◌++◌, arith, leb,
  All, Text, Bytes, All-append, Bool-cases, inl, inr,
}
use slimhub_v.Protocol.Utf8.{
  encode_char, encode, Pending, idle, wants, replacement, lead, restart, feed, decode_from, decode,
}

-- A Unicode scalar value: a code point that is no surrogate.
abbrev pub IsScalar : ℕ → Type 0
IsScalar c = (c < 0xd800) ⊎ ((0xe000 ≤ c) × (c < 0x110000))

decode_from-encode_char :
    (c : ℕ) (bs : Bytes)
    → IsScalar c
    → decode_from idle (encode_char c ++ bs) ≡ c ∷ decode_from idle bs
unfolding decode_from encode_char
decode_from-encode_char c bs h = ground arith

decode_from-encode : (s : Text) → All IsScalar s → decode_from idle (encode s) ≡ s
unfolding encode
decode_from-encode [] h = unfold decode_from in refl
decode_from-encode (c ∷ s) (hc, h) =
    decode_from-encode_char c (encode s) hc ∙ ap (◌∷◌ c) (decode_from-encode s h)

-- Decoding the UTF-8 of a text gives the text back.
pub decode-encode : (s : Text) → All IsScalar s → decode (encode s) ≡ s
unfolding decode
decode-encode = decode_from-encode

-- ASCII is its own encoding.
pub encode_ascii : (s : Text) → All (λ c. c < 128) s → encode s ≡ s
unfolding encode encode_char
encode_ascii [] h = refl
encode_ascii (c ∷ s) (hc, h) = ground (arith, encode_ascii s h)

-- The values that a pending character can still reach are scalar.
abbrev Spans : ℕ → ℕ → Type 0
Spans least most = (most < 0xd800) ⊎ ((0xe000 ≤ least) × (most < 0x110000))

abbrev weight : ℕ → ℕ
weight zero = 1
weight (suc zero) = 1
weight (suc (suc zero)) = 64
weight (suc (suc (suc n))) = 4096

abbrev IsSound : Pending → Type 0
IsSound idle = Unit
IsSound (wants n lo hi acc) =
    (1 ≤ n)
    × (n ≤ 3)
    × (0x80 ≤ lo)
    × (hi ≤ 0xbf)
    × Spans ((acc * 64 + (lo - 0x80)) * weight n)
        ((acc * 64 + (hi - 0x80)) * weight n + (weight n - 1))

restart-lead-IsSound : (b : ℕ) → All IsScalar (restart (lead b)).0 × IsSound (restart (lead b)).1
unfolding lead
restart-lead-IsSound b = ground arith

broken-IsSound :
    (b : ℕ) → All IsScalar (replacement ∷ (restart (lead b)).0) × IsSound (restart (lead b)).1
broken-IsSound b = let (out, next) = restart-lead-IsSound b in ((omega arith, out), next)

feed-IsSound : (p : Pending) (b : ℕ) → IsSound p → All IsScalar (feed p b).0 × IsSound (feed p b).1
unfolding feed
feed-IsSound idle b h = restart-lead-IsSound b
feed-IsSound (wants zero lo hi acc) b h = absurd (omega arith)
feed-IsSound (wants (suc zero) lo hi acc) b h = elim (Bool-cases (leb lo b && leb b hi)) [
  | inl e ↦ rw e ((ground arith, tt), tt)
  | inr e ↦ rw e (broken-IsSound b)
]
feed-IsSound (wants (suc (suc zero)) lo hi acc) b h = elim (Bool-cases (leb lo b && leb b hi)) [
  | inl e ↦ rw e (tt, ground arith)
  | inr e ↦ rw e (broken-IsSound b)
]
feed-IsSound (wants (suc (suc (suc zero))) lo hi acc) b h =
    elim (Bool-cases (leb lo b && leb b hi)) [
      | inl e ↦ rw e (tt, ground arith)
      | inr e ↦ rw e (broken-IsSound b)
    ]
feed-IsSound (wants (suc (suc (suc (suc n)))) lo hi acc) b h = absurd (omega arith)

decode_from_sound : (p : Pending) (bs : Bytes) → IsSound p → All IsScalar (decode_from p bs)
unfolding decode_from
decode_from_sound idle [] h = tt
decode_from_sound (wants n lo hi acc) [] h = (omega arith, tt)
decode_from_sound idle (b ∷ bs) h =
    let (out, next) = feed-IsSound idle b h in
    All-append IsScalar (feed idle b).0 _ out (decode_from_sound (feed idle b).1 bs next)
decode_from_sound (wants n lo hi acc) (b ∷ bs) h =
    let (out, next) = feed-IsSound (wants n lo hi acc) b h in
    All-append IsScalar (feed (wants n lo hi acc) b).0 _ out
      (decode_from_sound (feed (wants n lo hi acc) b).1 bs next)

-- Whatever the bytes are, each element of the decoded text is a scalar value.
pub decode-IsScalar : (bs : Bytes) → All IsScalar (decode bs)
unfolding decode
decode-IsScalar bs = decode_from_sound idle bs tt
