-- ===== src/Config/Shelf.antt =====
-- What the device config store of slimhub/config.py promises, without its files: a shelf that has a
-- config for each address in normal form, or none; and the calls of `DeviceConfigStore`, over the files
-- and on a shelf.
pub mod Replay
use mathlib.Core.Option.{some-injective}
use slimhub_v.Prelude.{
  ◌≡◌, refl, sym, ap, ◌∙◌, inl, inr, Bool, true, false, List, [], ◌∷◌, if◌then◌else◌, Text, text_eq,
  text_eq_iff, Bool-cases, Option, none, some, Option-cases, Error, Result, Result-cases, ok, err,
  ◌>>=◌, ◌>>◌, require, bad_field,
}
use slimhub_v.Prelude.Dict.{lookup, insert, lookup-insert}
use slimhub_v.Protocol.Mac.{normalize_mac}
use slimhub_v.Protocol.Mac.Laws.{normalize_mac_idem}
use slimhub_v.Config.{
  DeviceConfig, ConfigFile, Files, make_config, asdict, load, save, is_field, set_attribute,
  set_field, fill, is_some, ensure,
}
use slimhub_v.Config.Device.{IsConfig, read_file-asdict, make_config-eq-ok, save_kept}
use slimhub_v.Config.Updates.{
  new_config, new_config_made, new_config-IsConfig, set_attribute-IsConfig, address-set_attribute,
  fill-IsConfig, changed, completed,
}

-- A call of the store.
pub data Operation : Type 0 where
  loading : Text → Operation
  saving : DeviceConfig → Operation
  setting : Text → Text → Text → Operation
  ensuring : Text → Text → Text → Operation

-- The texts that a call may write to a file.
abbrev pub texts_of : Operation → List Text
texts_of (loading address) = []
texts_of (saving config) = config.address ∷ config.type ∷ config.name ∷ config.location ∷ []
texts_of (setting address field value) = value ∷ []
texts_of (ensuring address device_type name) = device_type ∷ name ∷ []

-- The call over the files, which an error leaves as they are.
abbrev kept_files : Files → Result (DeviceConfig × Files) → Result DeviceConfig × Files
kept_files files (err e) = (err e, files)
kept_files files (ok (c, files')) = (ok c, files')

abbrev beside : Files → Result DeviceConfig → Result (DeviceConfig × Files)
beside files (err e) = err e
beside files (ok c) = ok (c, files)

abbrev call : Operation → Files → Result (DeviceConfig × Files)
call (loading address) files = beside files (load files address)
call (saving config) files = save files config
call (setting address field value) files = set_field files address field value
call (ensuring address device_type name) files = ensure files address device_type name

unfoldable pub run : List Operation → Files → List (Result DeviceConfig) × Files
run [] files = ([], files)
run (op ∷ ops) files =
    let (answer, files') = kept_files files (call op files) in
    let (answers, files'') = run ops files' in (answer ∷ answers, files'')

abbrev pub Shelf : Type 0
Shelf = Text → Option DeviceConfig

-- The config of an address: a new one, if it has none.
abbrev pub config_at : Text → Option DeviceConfig → DeviceConfig
config_at n none = new_config n
config_at n (some c) = c

abbrev pub put : Text → DeviceConfig → Shelf → Shelf
put n c shelf m = if text_eq n m then some c else shelf m

abbrev has : Option DeviceConfig → Bool
has none = false
has (some c) = true

-- The same call on a shelf.
abbrev on_shelf : Operation → Shelf → Result (DeviceConfig × Shelf)
on_shelf (loading address) shelf = do n ← normalize_mac address; ok (config_at n (shelf n), shelf)
on_shelf (saving config) shelf = do
  c ← make_config config.address config.type config.name config.location
  ok (c, put c.address c shelf)
on_shelf (setting address field value) shelf = do
  require (is_field field) bad_field
  n ← normalize_mac address
  let c = changed field value (config_at n (shelf n))
  ok (c, put n c shelf)
on_shelf (ensuring address device_type name) shelf = do
  n ← normalize_mac address
  let c = completed (has (shelf n)) device_type name (config_at n (shelf n))
  ok (c, put n c shelf)

abbrev kept_shelf : Shelf → Result (DeviceConfig × Shelf) → Result DeviceConfig × Shelf
kept_shelf shelf (err e) = (err e, shelf)
kept_shelf shelf (ok (c, shelf')) = (ok c, shelf')

unfoldable pub replay : List Operation → Shelf → List (Result DeviceConfig) × Shelf
replay [] shelf = ([], shelf)
replay (op ∷ ops) shelf =
    let (answer, shelf') = kept_shelf shelf (on_shelf op shelf) in
    let (answers, shelf'') = replay ops shelf' in (answer ∷ answers, shelf'')

abbrev filed : Option DeviceConfig → Option ConfigFile
filed none = none
filed (some c) = some (asdict c)

-- The files hold what the shelf has, and nothing else.
pub record IsFiled (files : Files) (shelf : Shelf) : Type 0 where
  pub entries : (n : Text) → lookup n files ≡ filed (shelf n)
  pub configs : (n : Text) (c : DeviceConfig) → shelf n ≡ some c → IsConfig c × (c.address ≡ n)
