-- ===== src/Protocol/Rawdata/Laws.antt =====
-- The packed form of a packet, and what the flag of a PIR event says of the payload.
use slimhub_v.Prelude.{
  ℕ, ◌+◌, ◌-◌, ◌*◌, ◌/◌, ◌%◌, ◌≤◌, ◌<◌, ◌≡◌, refl, sym, ap, ◌∙◌, ◌↔◌, Bool, true, false, List, [],
  ◌∷◌, map, arith, ◌==◌, length, length-map, length-drop, drop, replicate, all, All, IsByte, Bytes,
  Bool-cases, ==_iff, inl, inr, ok-injective, ok-ne-err, ok,
}
use slimhub_v.Prelude.Int.{ℤ, pos, negsuc}
use slimhub_v.Protocol.Rawdata.{RawDataPacket, i8, is_zero, is_pir_event, unpack, parse_rawdata}

abbrev i8_byte : ℤ → ℕ
i8_byte (pos n) = n
i8_byte (negsuc n) = 255 - n

abbrev le16 : ℕ → Bytes → Bytes
le16 n rest = n % 256 ∷ n / 256 ∷ rest

-- `struct.pack("<BB7HB16b", …)` of the fields.
pub pack : RawDataPacket → Bytes
pack p =
    p.flag_human_presence
    ∷ p.detected
    ∷ le16 p.flag_env (
        le16 p.temperature_c (
          le16 p.humidity (
            le16 p.iaq
              (le16 p.eco2 (le16 p.bvoc (le16 p.accuracy (p.flag_sound ∷ map i8_byte p.sound)))))))

i8_byte-i8 : (b : ℕ) → b < 256 → i8_byte (i8 b) ≡ b
i8_byte-i8 b h = ground arith

sound-pack : (bs : Bytes) → All IsByte bs → map i8_byte (map i8 bs) ≡ bs
sound-pack [] h = refl
sound-pack (b ∷ bs) (hb, h) = ground (arith, i8_byte-i8 b hb, sound-pack bs h)

le16_bytes :
    (a b : ℕ) {rest rest' : Bytes}
    → a < 256
    → b < 256
    → rest ≡ rest'
    → le16 (a + 256 * b) rest ≡ a ∷ b ∷ rest'
le16_bytes a b ha hb e =
    let lo : (a + 256 * b) % 256 ≡ a = omega arith in
    let hi : (a + 256 * b) / 256 ≡ b = omega arith in cc (lo, hi, e)

-- Packing what was unpacked gives the payload back: no byte is lost.
pack-unpack :
    (payload : Bytes) → 17 ≤ length payload → All IsByte payload → pack (unpack payload) ≡ payload
unfolding pack
pack-unpack (a ∷ b ∷ c ∷ d ∷ e ∷ f ∷ g ∷ h ∷ i ∷ j ∷ k ∷ l ∷ m ∷ n ∷ o ∷ p ∷ q ∷ rest) len
      (
        h0,
        (
          h1,
          (
            h2,
            (
              h3,
              (
                h4,
                (h5, (h6, (h7, (h8, (h9, (h10, (h11, (h12, (h13, (h14, (h15, (h16, r)))))))))))),
              ),
            ),
          ),
        ),
      ) =
    ap (λ (t : Bytes). a ∷ b ∷ t)
      (le16_bytes c d h2 h3 (
        le16_bytes e f h4 h5 (
          le16_bytes g h h6 h7 (
            le16_bytes i j h8 h9 (
              le16_bytes k l h10 h11 (
                le16_bytes m n h12 h13
                  (le16_bytes o p h14 h15 (ap (◌∷◌ q) (sound-pack rest r)))))))))
pack-unpack _ len r = absurd (omega arith)

parse_rawdata-eq-ok :
    (payload : Bytes) (p : RawDataPacket)
    → parse_rawdata payload ≡ ok p
    → (length payload ≡ 33)
      × (p ≡ record (unpack payload) {
        is_pir_human_detection_event = is_pir_event (unpack payload);
      })
unfolding parse_rawdata
parse_rawdata-eq-ok payload p h = elim (Bool-cases (length payload == 33)) [
  | inl e ↦ ((==_iff _ _).0 e, sym (ok-injective _ _ (rw e at h)))
  | inr e ↦ absurd (ok-ne-err _ _ (sym (rw e at h)))
]

-- A payload of bytes that `parse_rawdata` accepts has 33 bytes, and packing the fields of the
-- packet gives it back.
pub pack-parse_rawdata :
    (payload : Bytes) (p : RawDataPacket)
    → All IsByte payload
    → parse_rawdata payload ≡ ok p
    → (length payload ≡ 33) × (pack p ≡ payload)
unfolding pack
pack-parse_rawdata payload p bytes h =
    let (len, e) = parse_rawdata-eq-ok payload p h in
    (len, rw e (unfold pack in pack-unpack payload (omega arith) bytes))

-- An int8, and a packet whose fields fit their places in the struct and whose flag is the test of
-- the fields.
abbrev pub IsI8 : ℤ → Type 0
IsI8 (pos n) = n < 128
IsI8 (negsuc n) = n < 128

pub record IsPacket (p : RawDataPacket) : Type 0 where
  pub flag_human_presence : p.flag_human_presence < 256
  pub detected : p.detected < 256
  pub flag_env : p.flag_env < 65536
  pub temperature_c : p.temperature_c < 65536
  pub humidity : p.humidity < 65536
  pub iaq : p.iaq < 65536
  pub eco2 : p.eco2 < 65536
  pub bvoc : p.bvoc < 65536
  pub accuracy : p.accuracy < 65536
  pub flag_sound : p.flag_sound < 256
  pub sound : All IsI8 p.sound
  pub sixteen : length p.sound ≡ 16
  pub pir : p.is_pir_human_detection_event ≡ is_pir_event p

i8-i8_byte : (v : ℤ) → IsI8 v → i8 (i8_byte v) ≡ v
i8-i8_byte (pos n) h = ground arith
i8-i8_byte (negsuc n) h = ground arith

sound-unpack : (s : List ℤ) → All IsI8 s → map i8 (map i8_byte s) ≡ s
sound-unpack [] h = refl
sound-unpack (v ∷ s) (hv, h) = cc (i8-i8_byte v hv, sound-unpack s h)

u16_le16 : (n : ℕ) → n % 256 + 256 * (n / 256) ≡ n
u16_le16 n = omega arith

unpack-pack :
    (p : RawDataPacket)
    → All IsI8 p.sound
    → unpack (pack p) ≡ record p { is_pir_human_detection_event = false }
unfolding pack
unpack-pack p h = λ i. record {
  flag_human_presence = p.flag_human_presence;
  detected = p.detected;
  flag_env = u16_le16 p.flag_env i;
  temperature_c = u16_le16 p.temperature_c i;
  humidity = u16_le16 p.humidity i;
  iaq = u16_le16 p.iaq i;
  eco2 = u16_le16 p.eco2 i;
  bvoc = u16_le16 p.bvoc i;
  accuracy = u16_le16 p.accuracy i;
  flag_sound = p.flag_sound;
  sound = sound-unpack p.sound h i;
  is_pir_human_detection_event = false;
}

pub length-pack : (p : RawDataPacket) → length (pack p) ≡ 17 + length p.sound
unfolding pack
length-pack p = omega (arith, length-map {0, 0} i8_byte p.sound)

-- Every packet whose fields fit is what `parse_rawdata` makes of its packed form.
pub parse_rawdata-pack : (p : RawDataPacket) → IsPacket p → parse_rawdata (pack p) ≡ ok p
unfolding parse_rawdata
parse_rawdata-pack p h =
    let len : (length (pack p) == 33) ≡ true = ground (arith, length-pack p) in
    rw len (
      ap (λ (q : RawDataPacket). ok (record q { is_pir_human_detection_event = is_pir_event q }))
        (unpack-pack p h.sound)
      ∙ ap (λ (b : Bool). ok (record p { is_pir_human_detection_event = b })) (sym h.pir))

-- The payload of a PIR event: presence and detection, and nothing else.
abbrev pub pir_payload : Bytes
pir_payload = 1 ∷ 1 ∷ replicate 31 0

record IsPirEvent (p : RawDataPacket) : Type 0 where
  flag_human_presence : p.flag_human_presence ≡ 1
  detected : p.detected ≡ 1
  flag_env : p.flag_env ≡ 0
  temperature_c : p.temperature_c ≡ 0
  humidity : p.humidity ≡ 0
  iaq : p.iaq ≡ 0
  eco2 : p.eco2 ≡ 0
  bvoc : p.bvoc ≡ 0
  accuracy : p.accuracy ≡ 0
  flag_sound : p.flag_sound ≡ 0
  sound : all is_zero p.sound ≡ true

is_pir_event-IsPirEvent : (p : RawDataPacket) → is_pir_event p ≡ true → IsPirEvent p
is_pir_event-IsPirEvent p h = ground arith

silent_sound :
    (bs : Bytes) → All IsByte bs → all is_zero (map i8 bs) ≡ true → bs ≡ replicate (length bs) 0
silent_sound [] h e = refl
silent_sound (b ∷ bs) (hb, h) e = ground (arith, silent_sound bs h)

silent : (s : List ℤ) → all is_zero s ≡ true → map i8_byte s ≡ replicate (length s) 0
silent [] e = refl
silent (pos n ∷ s) e = ground (arith, silent s)
silent (negsuc n ∷ s) e = cc

pack_pir : (p : RawDataPacket) → IsPirEvent p → length p.sound ≡ 16 → pack p ≡ pir_payload
unfolding pack
pack_pir p h len =
    rw
      (
        h.flag_human_presence,
        h.detected,
        h.flag_env,
        h.temperature_c,
        h.humidity,
        h.iaq,
        h.eco2,
        h.bvoc,
        h.accuracy,
        h.flag_sound,
        silent p.sound h.sound,
        len,
      )
      refl

parse_rawdata_flag :
    (payload : Bytes) (p : RawDataPacket)
    → parse_rawdata payload ≡ ok p
    → (p.is_pir_human_detection_event ≡ is_pir_event p) × (length p.sound ≡ 16)
parse_rawdata_flag payload p h =
    let (len, e) = parse_rawdata-eq-ok payload p h in
    rw e (refl, omega (arith, length-map {0, 0} i8 (drop 17 payload), length-drop {0} 17 payload))

parse_rawdata_pir :
    (p : RawDataPacket) → parse_rawdata pir_payload ≡ ok p → p.is_pir_human_detection_event ≡ true
unfolding parse_rawdata
parse_rawdata_pir p h =
    ap (λ (q : RawDataPacket). q.is_pir_human_detection_event) (sym (ok-injective _ _ h))

-- For a payload of bytes that `parse_rawdata` accepts, the event flag is set exactly if the
-- payload has a 1 in its first two bytes and 0 in all others.
pub is_pir_event_iff :
    (payload : Bytes) (p : RawDataPacket)
    → All IsByte payload
    → parse_rawdata payload ≡ ok p
    → (p.is_pir_human_detection_event ≡ true) ↔ (payload ≡ pir_payload)
is_pir_event_iff payload p bytes h =
    let (_, same) = pack-parse_rawdata payload p bytes h in
    let (flag, sixteen) = parse_rawdata_flag payload p h in
    (
      λ on. sym same ∙ pack_pir p (is_pir_event-IsPirEvent p (sym flag ∙ on)) sixteen,
      λ is_pir. parse_rawdata_pir p (rw is_pir at h),
    )
