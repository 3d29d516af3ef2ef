-- ===== src/Config.antt =====
-- slimhub/config.py: `DeviceConfig` and `DeviceConfigStore`. The directory of config files is a dict
-- from the address in a file's name to the file's fields, each of which may be missing; a field that
-- is there is a text. `HubConfig` and its store keep one file.
pub mod Device
pub mod Updates
pub mod Listing
pub mod Shelf
pub mod Hub
use slimhub_v.Prelude.{
  Bool, true, false, not, ◌||◌, ◌&&◌, List, [], ◌∷◌, map, if◌then◌else◌, Text, codes, text_eq,
  Option, none, some, Result, ok, err, ◌>>=◌, ◌>>◌, require, bad_field, ltb, ℕ, ◌==◌,
}
use slimhub_v.Prelude.Sorting.{sort_by}
use slimhub_v.Prelude.Dict.{Dict, lookup, insert}
use slimhub_v.Protocol.Mac.{normalize_mac}
use slimhub_v.Events.{text_or}

abbrev pub default_location : Text
default_location = codes "undefined"

-- `DEFAULT_DEVICE_TYPE`, which is `DEFAULT_DEVICE_NAME` of slimhub/protocol/nus.py
abbrev pub default_device_type : Text
default_device_type = codes "DEAN_NODE_V2"

pub record DeviceConfig : Type 0 where
  pub address : Text
  pub type : Text
  pub name : Text
  pub location : Text

-- What `__post_init__` makes of the four arguments.
unfoldable pub make_config : Text → Text → Text → Text → Result DeviceConfig
make_config address type name location = do
  normalized ← normalize_mac address
  ok (record {
    address = normalized;
    type = text_or type default_device_type;
    name = name;
    location = text_or location default_location;
  })

-- The object in a file.
pub record ConfigFile : Type 0 where
  pub address : Option Text
  pub type : Option Text
  pub name : Option Text
  pub location : Option Text

-- `data.get(field, default)`
abbrev pub get_field : Option Text → Text → Text
get_field none d = d
get_field (some t) d = t

-- `asdict(config)`
abbrev pub asdict : DeviceConfig → ConfigFile
asdict c = record {
  address = some c.address;
  type = some c.type;
  name = some c.name;
  location = some c.location;
}

abbrev pub Files : Type 0
Files = Dict ConfigFile

-- `DeviceConfig(address=data.get("address", stem), …)`
unfoldable pub read_file : Text → ConfigFile → Result DeviceConfig
unfolding make_config
read_file stem f =
    make_config (get_field f.address stem) (get_field f.type default_device_type)
      (get_field f.name []) (get_field f.location default_location)

abbrev load_found : Text → Option ConfigFile → Result DeviceConfig
load_found normalized none = make_config normalized default_device_type [] default_location
load_found normalized (some f) = read_file normalized f

unfoldable pub load : Files → Text → Result DeviceConfig
unfolding read_file
load files address = do
  normalized ← normalize_mac address
  load_found normalized (lookup normalized files)

-- The config as `save` writes it, and the files with it written. Its texts can be encoded: with a lone
-- surrogate in one, the code truncates the file and raises, which is outside the domain of this function.
unfoldable pub save : Files → DeviceConfig → Result (DeviceConfig × Files)
unfolding make_config
save files config = do
  saved ← make_config config.address config.type config.name config.location
  ok (saved, insert saved.address (asdict saved) files)

abbrev pub is_field : Text → Bool
is_field field =
    text_eq field (codes "type") || text_eq field (codes "name") || text_eq field (codes "location")

-- `setattr(config, field, value)` for the three fields, after the defaults for an empty value.
unfoldable pub set_attribute : Text → Text → DeviceConfig → DeviceConfig
set_attribute field value config =
    if text_eq field (codes "location")
    then record config { location = text_or value default_location }
    else if text_eq field (codes "type")
    then record config { type = text_or value default_device_type }
    else record config { name = value }

unfoldable pub set_field : Files → Text → Text → Text → Result (DeviceConfig × Files)
set_field files address field value = do
  require (is_field field) bad_field
  config ← load files address
  save files (set_attribute field value config)

abbrev pub is_some : Option ConfigFile → Bool
is_some none = false
is_some (some f) = true

abbrev pub is_empty : Text → Bool
is_empty [] = true
is_empty (c ∷ t) = false

-- The two updates of `ensure`: a value that is given fills a field of a new file, or an empty one.
abbrev pub choose : Bool → Text → Text → Text
choose existed given old =
    if (not existed || is_empty old) && not (is_empty given) then given else old

abbrev pub fill : Bool → Text → Text → DeviceConfig → DeviceConfig
fill existed device_type name config = record config {
  type = choose existed device_type config.type;
  name = choose existed name config.name;
}

unfoldable pub ensure : Files → Text → Text → Text → Result (DeviceConfig × Files)
ensure files address device_type name = do
  normalized ← normalize_mac address
  config ← load files address
  save files (fill (is_some (lookup normalized files)) device_type name config)

-- `sorted(config_dir.glob("*.json"))`: the files in the order of their names.
unfoldable pub text_lt : Text → Text → Bool
text_lt s [] = false
text_lt [] (d ∷ t) = true
text_lt (c ∷ s) (d ∷ t) = let rest = text_lt s t in if c == d then rest else ltb c d

unfoldable pub sorted : Files → Files
unfolding text_lt
sorted = sort_by (λ (e f : Text × ConfigFile). text_lt e.0 f.0)

unfoldable pub read_all : Files → Result (List DeviceConfig)
unfolding read_file
read_all [] = ok []
read_all ((stem, f) ∷ rest) = do
  config ← read_file stem f
  configs ← read_all rest
  ok (config ∷ configs)

unfoldable pub list_all : Files → Result (List DeviceConfig)
unfolding sorted read_all
list_all files = read_all (sorted files)
