-- ===== src/Paths.antt =====
-- `AppPaths`, `get_mac_address` and `DeviceConfigStore._path_for` of slimhub/config.py. A path is the
-- list of its parts, and the directories that there are are a list of paths. What `Path.resolve` makes of
-- a text is a parameter.
pub mod Laws
use slimhub_v.Prelude.{
  ℕ, ◌/◌, ◌%◌, ◌^◌, Bool, true, false, ◌||◌, List, [], ◌∷◌, ◌++◌, map, if◌then◌else◌, Text, Bytes,
  codes, Option, none, some, Result, ok, ◌>>=◌,
}
use slimhub_v.Protocol.Mac.{normalize_mac, format_mac}
use slimhub_v.Events.{option_or}
use slimhub_v.Logger.Store.{FilePath, path_eq}

pub record AppPaths : Type 0 where
  pub base_dir : FilePath

-- The base directory that is given, or `SLIMHUB_HOME` if it is set and not empty, or the current one.
unfoldable pub from_base : (Text → FilePath) → Option Text → Option Text → Text → AppPaths
from_base resolve none home cwd = record { base_dir = resolve (option_or home cwd) }
from_base resolve (some base_dir) home cwd = record { base_dir = resolve base_dir }

abbrev pub programdata_dir : AppPaths → FilePath
programdata_dir paths = paths.base_dir ++ codes "programdata" ∷ []

abbrev pub config_dir : AppPaths → FilePath
config_dir paths = programdata_dir paths ++ codes "config" ∷ []

abbrev pub data_dir : AppPaths → FilePath
data_dir paths = paths.base_dir ++ codes "data" ∷ []

abbrev pub logs_dir : AppPaths → FilePath
logs_dir paths = programdata_dir paths

abbrev pub socket_path : AppPaths → FilePath
socket_path paths = programdata_dir paths ++ codes "slimhub.sock" ∷ []

abbrev pub hub_config_path : AppPaths → FilePath
hub_config_path paths = programdata_dir paths ++ codes "config.json" ∷ []

abbrev pub logging_path : AppPaths → FilePath
logging_path paths = programdata_dir paths ++ codes "logging.log" ∷ []

-- `path.exists()`, of a directory
unfoldable pub is_dir : FilePath → List FilePath → Bool
is_dir p [] = false
is_dir p (q ∷ dirs) = let rest = is_dir p dirs in path_eq p q || rest

abbrev pub add_dir : FilePath → List FilePath → List FilePath
add_dir p dirs = if is_dir p dirs then dirs else dirs ++ p ∷ []

-- `path.mkdir(parents=True, exist_ok=True)`, of `front / rest`
unfoldable pub mkdir : FilePath → FilePath → List FilePath → List FilePath
mkdir front [] dirs = dirs
mkdir front (part ∷ rest) dirs = mkdir (front ++ part ∷ []) rest (add_dir (front ++ part ∷ []) dirs)

-- `AppPaths.ensure`
unfoldable pub ensure : AppPaths → List FilePath → List FilePath
unfolding mkdir
ensure paths dirs =
    mkdir [] (data_dir paths) (mkdir [] (config_dir paths) (mkdir [] (programdata_dir paths) dirs))

unfoldable pub path_for : AppPaths → Text → Result FilePath
path_for paths address = do
  normalized ← normalize_mac address
  ok (config_dir paths ++ (normalized ++ codes ".json") ∷ [])

-- `(mac >> shift) & 0xFF for shift in range(40, -1, -8)`
abbrev pub octets : ℕ → Bytes
octets mac = map (λ (shift : ℕ). mac / 2 ^ shift % 256) (40 ∷ 32 ∷ 24 ∷ 16 ∷ 8 ∷ 0 ∷ [])

-- `get_mac_address`, of the number that `uuid.getnode()` gives
unfoldable pub get_mac_address : ℕ → Text
get_mac_address mac = format_mac (octets mac)
