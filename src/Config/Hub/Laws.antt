-- ===== src/Config/Hub/Laws.antt =====
-- What the hub config store keeps.
use slimhub_v.Prelude.{◌≡◌, refl, true, false, arith, Text, Option, none, some, ok}
use slimhub_v.Events.{option_or}
use slimhub_v.Config.{is_empty}
use slimhub_v.Config.Device.{text_or_set, text_or_kept}
use slimhub_v.Config.Hub.{
  HubConfig, HubFile, hub_type, hub_asdict, hub_save, is_hub_field, hub_set_attribute,
  load_or_create, hub_set_field,
}

option_or_set : (o : Option Text) (d : Text) → is_empty d ≡ false → is_empty (option_or o d) ≡ false
option_or_set none d h = h
option_or_set (some t) d h = text_or_set t d h

-- A config that the store hands out: its address and its type are not empty.
record IsHubConfig (c : HubConfig) : Type 0 where
  addressed : is_empty c.address ≡ false
  typed : is_empty c.type ≡ false

loaded-IsHubConfig :
    (own_mac : Text) (file : Option HubFile)
    → is_empty own_mac ≡ false
    → IsHubConfig (load_or_create own_mac file).0
unfolding load_or_create hub_save
loaded-IsHubConfig own_mac none h = record { addressed = h; typed = refl }
loaded-IsHubConfig own_mac (some f) h = record {
  addressed = option_or_set f.address own_mac h;
  typed = option_or_set f.type hub_type refl;
}

reload :
    (own_mac : Text) (c : HubConfig)
    → IsHubConfig c
    → load_or_create own_mac (some (hub_asdict c)) ≡ (c, some (hub_asdict c))
unfolding load_or_create
reload own_mac c h =
    rw (text_or_kept c.address own_mac h.addressed, text_or_kept c.type hub_type h.typed) refl

set_attribute-IsHubConfig :
    (field value : Text) (c : HubConfig)
    → is_empty value ≡ false
    → IsHubConfig c
    → IsHubConfig (hub_set_attribute field value c)
unfolding hub_set_attribute
set_attribute-IsHubConfig field value c h hc =
    let a = hc.addressed in
    let t = hc.typed in record { addressed = ground arith; typed = ground arith }

-- If the machine has a MAC address, then setting one of the four fields to a value that is not empty
-- succeeds, returns the config that was loaded or created with that field set, and stores it: loading
-- gives it again, and leaves the file as it is.
pub hub_set_field_lem :
    (own_mac : Text) (file : Option HubFile) (field value : Text)
    → is_empty own_mac ≡ false
    → is_empty value ≡ false
    → is_hub_field field ≡ true
    → (file' : Option HubFile) × (hub_set_field own_mac file field value
        ≡ ok (hub_set_attribute field value (load_or_create own_mac file).0, file'))
      × (load_or_create own_mac file'
          ≡ (hub_set_attribute field value (load_or_create own_mac file).0, file'))
unfolding hub_set_field hub_save
hub_set_field_lem own_mac file field value has_mac given known =
    let c = hub_set_attribute field value (load_or_create own_mac file).0 in
    (
      some (hub_asdict c),
      rw known refl,
      reload own_mac c (
          set_attribute-IsHubConfig field value (load_or_create own_mac file).0 given
            (loaded-IsHubConfig own_mac file has_mac)),
    )
