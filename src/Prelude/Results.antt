-- ===== src/Prelude/Results.antt =====
-- The exceptions that the program raises, and the result of code that may raise one.
use Prim.Native.Nat.{ℕ}
use mathlib.Core.Path.{◌≡◌, refl}
use mathlib.Core.Bool.{Bool, true, false}
use mathlib.Core.Logic.{◌⊎◌, inl, inr}
use slimhub_v.Prelude.Texts.{Text, Bytes}

-- The last six are `PacketParseError`s, one for each message. Of the others most are `ValueError`s;
-- `missing_key` is a `KeyError`, `bad_type` a `TypeError` or an `AttributeError`, `not_running` a
-- `FileNotFoundError`, `connection_refused` a `ConnectionRefusedError`, and `unhandled_command`, `failed_request`, `empty_response` and `bad_response`
-- are `RuntimeError`s. `line_too_long` is the `ValueError` of a `readline` past its limit, `unencodable` the
-- `UnicodeEncodeError` of a text with a lone surrogate.
pub data Error : Type 0 where
  invalid_mac : Text → Error
  bad_int : Text → Error
  packet_type_not_ascii : Error
  packet_type_too_long : Error
  payload_too_large : Error
  bad_command : Error
  bad_action : Error
  no_session : Text → Error
  address_required : Error
  bad_field : Error
  bad_args : Error
  missing_key : Text → Error
  bad_type : Error
  unknown_command : Error
  unhandled_command : Error
  failed_request : Text → Error
  not_running connection_refused : Error
  empty_response bad_response : Error
  line_too_long unencodable : Error
  frame_too_short : ℕ → Error
  length_mismatch : ℕ → ℕ → Error
  end_flag_mismatch : Bytes → Error
  type_not_ascii : Bytes → Error
  rawdata_length : ℕ → Error
  unknown_type : Text → Error

pub data Result {ℓ} (A : Type ℓ) : Type ℓ where
  err : Error → Result A
  ok : A → Result A

-- `raise e` unless the test holds
abbrev pub require : Bool → Error → Result (Unit {0})
require false e = err e
require true e = ok tt

module _ {ℓ} {A : Type ℓ} where
  pub Result-cases : (r : Result A) → ((a : A) × (r ≡ ok a)) ⊎ ((e : Error) × (r ≡ err e))
  Result-cases (ok a) = inl (a, refl)
  Result-cases (err e) = inr (e, refl)

  pub ok-injective : (a b : A) → ok a ≡ ok b → a ≡ b
  ok-injective a b h = cc

  pub ok-ne-err : (a : A) (e : Error) → ok a ≡ err e → ⊥
  ok-ne-err a e h = cc

  infixl 5 ◌>>=◌
  abbrev pub ◌>>=◌ {κ} : {B : Type κ} → Result A → (A → Result B) → Result B
  err e >>= next = err e
  ok a >>= next = next a

  pub >>=-eq-ok {κ} :
      {B : Type κ} (r : Result A) (next : A → Result B) {b : B}
      → (r >>= next) ≡ ok b
      → (a : A) × (r ≡ ok a) × (next a ≡ ok b)
  >>=-eq-ok (err e) next h = cc
  >>=-eq-ok (ok a) next h = (a, refl, h)

infixl 5 ◌>>◌
abbrev pub ◌>>◌ {ℓ} : {B : Type ℓ} → Result (Unit {0}) → Result B → Result B
r >> next = r >>= λ _. next
