-- ===== src/Config/Hub.antt =====
-- `HubConfig` and `HubConfigStore` of slimhub/config.py. The one file is there or not; `owner` and
-- `name` may be null in it. The hub's own MAC address, which `get_mac_address` reads from the
-- machine, is a parameter.
pub mod Laws
use slimhub_v.Prelude.{
  Bool, ◌||◌, if◌then◌else◌, Text, codes, text_eq, Option, none, some, Result, ok, ◌>>◌, require,
  bad_field,
}
use slimhub_v.Events.{option_or}

pub record HubConfig : Type 0 where
  pub address : Text
  pub type : Text
  pub owner : Option Text
  pub name : Option Text

-- The object in the file. A missing field and a null are the same to the code.
pub record HubFile : Type 0 where
  pub address : Option Text
  pub type : Option Text
  pub owner : Option Text
  pub name : Option Text

abbrev pub hub_type : Text
hub_type = codes "slimhub"

-- `asdict(config)`
abbrev pub hub_asdict : HubConfig → HubFile
hub_asdict c = record {
  address = some c.address;
  type = some c.type;
  owner = c.owner;
  name = c.name;
}

-- `save`, of a config whose texts can be encoded.
unfoldable pub hub_save : HubConfig → HubConfig × Option HubFile
hub_save config = (config, some (hub_asdict config))

abbrev pub is_hub_field : Text → Bool
is_hub_field field =
    text_eq field (codes "address")
    || text_eq field (codes "type")
    || text_eq field (codes "owner")
    || text_eq field (codes "name")

unfoldable pub hub_set_attribute : Text → Text → HubConfig → HubConfig
hub_set_attribute field value config =
    if text_eq field (codes "address")
    then record config { address = value }
    else if text_eq field (codes "type")
    then record config { type = value }
    else if text_eq field (codes "owner")
    then record config { owner = some value }
    else record config { name = some value }

module _ (own_mac : Text) where
  unfoldable pub load_or_create : Option HubFile → HubConfig × Option HubFile
  unfolding hub_save
  load_or_create none =
      hub_save (record { address = own_mac; type = hub_type; owner = none; name = none })
  load_or_create (some f) = (
    record {
      address = option_or f.address own_mac;
      type = option_or f.type hub_type;
      owner = f.owner;
      name = f.name;
    },
    some f,
  )

  unfoldable pub hub_set_field : Option HubFile → Text → Text → Result (HubConfig × Option HubFile)
  unfolding load_or_create hub_save hub_set_attribute
  hub_set_field file field value = do
    require (is_hub_field field) bad_field
    ok (hub_save (hub_set_attribute field value (load_or_create file).0))
