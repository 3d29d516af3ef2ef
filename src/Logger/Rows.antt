-- ===== src/Logger/Rows.antt =====
-- The rows of slimhub/logging/raw_logger.py against the headings of their files.
use slimhub_v.Prelude.{
  ℕ, zero, suc, ◌-◌, ◌≤◌, ◌≡◌, refl, sym, ap, ◌∙◌, List, [], ◌∷◌, map, arith, length, length-append,
  length-replicate, take, replicate, get_or, Text, codes, text_eq,
}
use slimhub_v.Prelude.Int.{ℤ, pos}
use slimhub_v.Prelude.Dict.{Dict, lookup, insert}
use slimhub_v.Events.{RawDataEvent}
use slimhub_v.Logger.{
  Machine, sound_classlist, csv_fields, shifted, sounds, put_sounds, row_for, cells_of,
}
use slimhub_v.Logger.Store.{Cell, of_text, of_number, of_hundredths, of_256}

pub tabulate {ℓ} : {A : Type ℓ} → ℕ → (ℕ → A) → List A
tabulate zero f = []
tabulate (suc n) f = f 0 ∷ tabulate n (λ i. f (suc i))

-- A list by its elements.
listing {ℓ} :
    {A : Type ℓ} (n : ℕ) (xs : List A) (d : A)
    → length xs ≡ n
    → xs ≡ tabulate n (λ i. get_or xs i d)
unfolding tabulate
listing zero [] d h = refl
listing zero (x ∷ xs) d h = absurd (omega arith)
listing (suc n) [] d h = absurd (omega arith)
listing (suc n) (x ∷ xs) d h = ap (◌∷◌ x) (listing n xs d (omega arith))

take_short : (n : ℕ) (xs : List ℤ) → length (take n xs) ≤ n
take_short zero xs = omega arith
take_short (suc n) [] = omega arith
take_short (suc n) (x ∷ xs) = omega (arith, take_short n xs)

length-sounds : (values : List ℤ) → length (sounds values) ≡ 12
length-sounds values = omega (
  arith,
  take_short 12 values,
  length-append {0} (take 12 values) (replicate (12 - length (take 12 values)) (pos 0)),
  length-replicate {A = ℤ} (12 - length (take 12 values)) (pos 0),
)

-- The columns of a row: those of the packet, and the twelve sounds, each (value + 128) / 256.
abbrev pub columns : Machine → RawDataEvent → List ℤ → List Cell
columns machine event values =
    of_text (machine.clock event.timestamp)
    ∷ of_number event.packet.flag_human_presence
    ∷ of_number event.packet.detected
    ∷ of_number event.packet.flag_env
    ∷ of_hundredths event.packet.temperature_c
    ∷ of_number event.packet.humidity
    ∷ of_number event.packet.iaq
    ∷ of_number event.packet.eco2
    ∷ of_number event.packet.bvoc
    ∷ of_number event.packet.flag_sound
    ∷ map (λ (v : ℤ). of_256 (shifted v)) values

module _ (machine : Machine) (event : RawDataEvent) where
  base : List ℤ → Dict Cell
  base values = put_sounds sound_classlist values (
      (codes "time", of_text (machine.clock event.timestamp))
      ∷ (codes "GridEye", of_number event.packet.flag_human_presence)
      ∷ (codes "Direction", of_number event.packet.detected)
      ∷ (codes "ENV", of_number event.packet.flag_env)
      ∷ (codes "temp", of_hundredths event.packet.temperature_c)
      ∷ (codes "humid", of_number event.packet.humidity)
      ∷ (codes "iaq", of_number event.packet.iaq)
      ∷ (codes "eco2", of_number event.packet.eco2)
      ∷ (codes "bvoc", of_number event.packet.bvoc)
      ∷ (codes "SOUND", of_number event.packet.flag_sound)
      ∷ [])

  keys_of_twelve : (f : ℕ → ℤ) → map (λ (r : Text × Cell). r.0) (base (tabulate 12 f)) ≡ csv_fields
  unfolding base tabulate put_sounds insert text_eq
  keys_of_twelve f = refl

  cells_of_twelve :
      (f : ℕ → ℤ) → cells_of (base (tabulate 12 f)) ≡ columns machine event (tabulate 12 f)
  unfolding base tabulate put_sounds insert lookup text_eq
  cells_of_twelve f = refl

  -- A row has exactly the fields of the heading, in their order, and its cells are the packet's fields
  -- without the accuracy, and twelve sounds: the packet's first ones, filled up with zeros.
  pub row_for_lem :
      (map (λ (r : Text × Cell). r.0) (row_for machine event) ≡ csv_fields)
      × (cells_of (row_for machine event) ≡ columns machine event (sounds event.packet.sound))
  unfolding row_for base
  row_for_lem =
      let values = sounds event.packet.sound in
      let whole = listing 12 values (pos 0) (length-sounds event.packet.sound) in
      let f : ℕ → ℤ = λ i. get_or values i (pos 0) in
      (
        ap (λ (vs : List ℤ). map (λ (r : Text × Cell). r.0) (base vs)) whole ∙ keys_of_twelve f,
        ap (λ (vs : List ℤ). cells_of (base vs)) whole
            ∙ cells_of_twelve f
            ∙ ap (columns machine event) (sym whole),
      )
