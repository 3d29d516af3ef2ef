-- ===== src/Prelude/Json.antt =====
-- The values that Python's json module reads and writes, and the truth of such a value. A real number
-- is m / 10^e; NaN and the infinities are left out.
use Prim.Native.Nat.{ℕ, zero, suc}
use mathlib.Core.Bool.{Bool, true, false, ◌&&◌}
use mathlib.Core.Option.{Option, none, some}
use mathlib.Core.List.{List, [], ◌∷◌}
use slimhub_v.Prelude.Int.{ℤ, pos, negsuc}
use slimhub_v.Prelude.Tests.{if◌then◌else◌}
use slimhub_v.Prelude.Texts.{Text, text_eq, is_encodable}

mutual
  pub data Json : Type 0 where
    null : Json
    boolean : Bool → Json
    number : ℤ → Json
    real : ℤ → ℕ → Json
    string : Text → Json
    array : Items → Json
    object : Fields → Json

  pub data Items : Type 0 where
    empty : Items
    item : Json → Items → Items

  pub data Fields : Type 0 where
    nothing : Fields
    field : Text → Json → Fields → Fields

-- `d.get(k)`
unfoldable pub get_field : Text → Fields → Option Json
get_field k nothing = none
get_field k (field j v fields) =
    let rest = get_field k fields in if text_eq j k then some v else rest

abbrev is_nonzero : ℤ → Bool
is_nonzero (pos zero) = false
is_nonzero (pos (suc n)) = true
is_nonzero (negsuc n) = true

-- `bool(v)`
abbrev pub truthy : Json → Bool
truthy null = false
truthy (boolean b) = b
truthy (number n) = is_nonzero n
truthy (real m e) = is_nonzero m
truthy (string []) = false
truthy (string (c ∷ t)) = true
truthy (array empty) = false
truthy (array (item v items)) = true
truthy (object nothing) = false
truthy (object (field k v fields)) = true

-- Lists as arrays, and the other way.
unfoldable pub items : List Json → Items
items [] = empty
items (v ∷ rest) = item v (items rest)

unfoldable pub list_of : Items → List Json
list_of empty = []
list_of (item v rest) = v ∷ list_of rest

unfoldable pub keys : Fields → List Text
keys nothing = []
keys (field k v fields) = k ∷ keys fields

abbrev pub text_or_null : Option Text → Json
text_or_null none = null
text_or_null (some text) = string text

-- Whether every text in a value can be encoded in UTF-8.
unfoldable mutual
  pub is_encodable_json : Json → Bool
  is_encodable_json null = true
  is_encodable_json (boolean b) = true
  is_encodable_json (number n) = true
  is_encodable_json (real m e) = true
  is_encodable_json (string text) = is_encodable text
  is_encodable_json (array values) = are_encodable values
  is_encodable_json (object fields) = are_encodable_fields fields

  pub are_encodable : Items → Bool
  are_encodable empty = true
  are_encodable (item v values) = is_encodable_json v && are_encodable values

  pub are_encodable_fields : Fields → Bool
  are_encodable_fields nothing = true
  are_encodable_fields (field k v fields) =
      is_encodable k && is_encodable_json v && are_encodable_fields fields
