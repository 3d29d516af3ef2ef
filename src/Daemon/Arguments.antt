-- ===== src/Daemon/Arguments.antt =====
-- The arguments of a request to slimhub/daemon.py, as `dispatch` reads them. What Python's `str`, `int`
-- and json module do is a parameter, and so is the hub's own MAC address.
use slimhub_v.Prelude.{
  Bool, true, false, [], if◌then◌else◌, Text, Bytes, codes, Option, none, some, Error, Result, ok,
  err, ◌>>=◌, bad_args, missing_key,
}
use slimhub_v.Prelude.Int.{ℤ, pos}
use slimhub_v.Prelude.Json.{
  Json, null, boolean, number, real, string, array, object, Fields, nothing, get_field, truthy,
}
use slimhub_v.Logger.Store.{Line}

-- `shown` is `str` and `read_int` is `int`, of values other than texts, nulls and Booleans, and other
-- than whole numbers and Booleans; `own_mac` is `get_mac_address()`, `error_text` is `str` of an
-- exception, and `line_text` is a line of a data file as a text, as the csv module writes a row, without
-- its end.
pub record Runtime : Type 0 where
  pub shown : Json → Text
  pub read_int : Json → Result ℤ
  pub dumps : Json → Bytes
  pub loads : Bytes → Result Json
  pub own_mac : Text
  pub error_text : Error → Text
  pub line_text : Line → Text

abbrev true_text : Bool → Text
true_text true = codes "True"
true_text false = codes "False"

abbrev pub str : Runtime → Json → Text
str runtime null = codes "None"
str runtime (boolean b) = true_text b
str runtime (string text) = text
str runtime (number n) = runtime.shown (number n)
str runtime (real m e) = runtime.shown (real m e)
str runtime (array items) = runtime.shown (array items)
str runtime (object fields) = runtime.shown (object fields)

abbrev pub int : Runtime → Json → Result ℤ
int runtime (number n) = ok n
int runtime (boolean true) = ok (pos 1)
int runtime (boolean false) = ok (pos 0)
int runtime null = runtime.read_int null
int runtime (real m e) = runtime.read_int (real m e)
int runtime (string text) = runtime.read_int (string text)
int runtime (array items) = runtime.read_int (array items)
int runtime (object fields) = runtime.read_int (object fields)

-- `args[k]`
abbrev pub item_or_raise : Text → Option Json → Result Json
item_or_raise k none = err (missing_key k)
item_or_raise k (some v) = ok v

-- `isinstance(v, str)`: none is a value that is no string, or no value.
abbrev pub as_text : Option Json → Option Text
as_text (some (string text)) = some text
as_text _ = none

-- `str(v)` where an absent value is `None`
abbrev pub str_or_none : Runtime → Option Json → Text
str_or_none runtime none = codes "None"
str_or_none runtime (some v) = str runtime v

-- `str(args.get(k, ""))`
abbrev pub str_or_empty : Runtime → Option Json → Text
str_or_empty runtime none = []
str_or_empty runtime (some v) = str runtime v

-- `str(v) if v is not None else …`
abbrev pub optional_str : Runtime → Option Json → Option Text
optional_str runtime none = none
optional_str runtime (some null) = none
optional_str runtime (some v) = some (str runtime v)

-- `str(v) if v else None`
abbrev pub str_if_true : Runtime → Option Json → Option Text
str_if_true runtime none = none
str_if_true runtime (some v) = if truthy v then some (str runtime v) else none

abbrev pub int_or : Runtime → ℤ → Option Json → Result ℤ
int_or runtime n none = ok n
int_or runtime n (some v) = int runtime v

abbrev pub address_of : Runtime → Fields → Result Text
address_of runtime args = do
  address ← item_or_raise (codes "address") (get_field (codes "address") args)
  ok (str runtime address)

abbrev pub setting_of : Runtime → Fields → Result (Text × Text)
setting_of runtime args = do
  field ← item_or_raise (codes "field") (get_field (codes "field") args)
  value ← item_or_raise (codes "value") (get_field (codes "value") args)
  ok (str runtime field, str runtime value)

abbrev pub change_of : Runtime → Fields → Result (Text × (Text × Text))
change_of runtime args = do
  address ← address_of runtime args
  setting ← setting_of runtime args
  ok (address, setting)

-- `request.get("args") or {}`, which must be an object.
abbrev as_args : Json → Result Fields
as_args (object fields) = ok fields
as_args _ = err bad_args

abbrev pub args_of : Option Json → Result Fields
args_of none = ok nothing
args_of (some v) = if truthy v then as_args v else ok nothing
