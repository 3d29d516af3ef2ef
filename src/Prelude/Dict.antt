-- ===== src/Prelude/Dict.antt =====
-- Python's `dict` with text keys, in insertion order. Proofs elsewhere go by the laws.
use slimhub_v.Prelude.Tests.{if◌then◌else◌, Bool-cases}
use slimhub_v.Prelude.Texts.{Text, text_eq, text_eq_iff}
use mathlib.Core.Path.{◌≡◌, refl, ap, ◌∙◌}
use mathlib.Core.Logic.{inl, inr}
use mathlib.Core.Bool.{Bool, false}
use mathlib.Core.Option.{Option, none, some}
use mathlib.Core.List.{List, [], ◌∷◌}
use native.Mathlib.Omega.{arith}

abbrev pub Dict {ℓ} : Type ℓ → Type ℓ
Dict V = List (Text × V)

module _ {ℓ} {V : Type ℓ} where
  -- `d.get(k)`
  unfoldable pub lookup : Text → Dict V → Option V
  lookup k [] = none
  lookup k ((j, v) ∷ d) = if text_eq j k then some v else lookup k d

  -- `d[k] = v`: a key that is there keeps its place.
  unfoldable pub insert : Text → V → Dict V → Dict V
  insert k v [] = (k, v) ∷ []
  insert k v ((j, w) ∷ d) = if text_eq j k then (j, v) ∷ d else (j, w) ∷ insert k v d

  -- No key stands twice.
  abbrev pub NodupKeys : Dict V → Type ℓ
  NodupKeys [] = Unit
  NodupKeys ((k, _) ∷ d) = (lookup k d ≡ none) × NodupKeys d

  pub lookup-insert :
      (j k : Text) (v : V) (d : Dict V)
      → lookup j (insert k v d) ≡ (if text_eq k j then some v else lookup j d)
  unfolding lookup insert
  lookup-insert j k v [] = refl
  lookup-insert j k v ((i, w) ∷ d) =
      ground (arith, text_eq_iff k j, text_eq_iff i k, text_eq_iff i j, lookup-insert j k v d)

  pub insert-NodupKeys : (k : Text) (v : V) (d : Dict V) → NodupKeys d → NodupKeys (insert k v d)
  unfolding insert lookup
  insert-NodupKeys k v [] h = (refl, tt)
  insert-NodupKeys k v ((i, w) ∷ d) (new, h) = elim (Bool-cases (text_eq i k)) [
    | inl same ↦ rw same (new, h)
    | inr other ↦ rw other (
      lookup-insert i k v d
          ∙ ap (λ (b : Bool). if b then some v else lookup i d) (text_eq_flip i k other)
          ∙ new,
      insert-NodupKeys k v d h,
    )
  ]
    where
      text_eq_flip : (a b : Text) → text_eq a b ≡ false → text_eq b a ≡ false
      text_eq_flip a b e = ground (arith, text_eq_iff a b, text_eq_iff b a, e)

  -- Writing the same entry again changes nothing.
  pub insert_twice : (k : Text) (v : V) (d : Dict V) → insert k v (insert k v d) ≡ insert k v d
  unfolding insert
  insert_twice k v [] = ground (arith, text_eq_iff k k)
  insert_twice k v ((i, w) ∷ d) = ground (arith, text_eq_iff i k, insert_twice k v d)
