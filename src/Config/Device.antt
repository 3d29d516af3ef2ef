-- ===== src/Config/Device.antt =====
-- What the device config store keeps: reading after writing, and the files that it writes.
use slimhub_v.Prelude.{
  ◌≡◌, refl, sym, ap, ◌∙◌, Bool, true, false, [], ◌∷◌, if◌then◌else◌, Text, text_eq, some, ok,
  ok-injective, >>=-eq-ok,
}
use slimhub_v.Prelude.Dict.{lookup, insert, lookup-insert}
use slimhub_v.Protocol.Mac.{normalize_mac}
use slimhub_v.Protocol.Mac.Laws.{normalize_mac_idem}
use slimhub_v.Events.{text_or}
use slimhub_v.Config.{
  DeviceConfig, Files, default_location, default_device_type, make_config, asdict, read_file,
  load_found, load, save, is_empty,
}

-- A config as the store returns it.
pub record IsConfig (c : DeviceConfig) : Type 0 where
  pub normal : normalize_mac c.address ≡ ok c.address
  pub typed : is_empty c.type ≡ false
  pub located : is_empty c.location ≡ false

pub text_or_set : (t d : Text) → is_empty d ≡ false → is_empty (text_or t d) ≡ false
text_or_set [] d h = h
text_or_set (x ∷ t) d h = refl

pub text_or_kept : (t d : Text) → is_empty t ≡ false → text_or t d ≡ t
text_or_kept [] d h = cc
text_or_kept (x ∷ t) d h = refl

pub make_config-eq-ok :
    (address type name location : Text) (c : DeviceConfig)
    → make_config address type name location ≡ ok c
    → IsConfig c × (normalize_mac address ≡ ok c.address) × (c.name ≡ name)
unfolding make_config
make_config-eq-ok address type name location c h =
    let (n, e, f) = >>=-eq-ok (normalize_mac address) _ h in
    let same = sym (ok-injective _ _ f) in
    rw same (
      record {
        normal = normalize_mac_idem address n e;
        typed = text_or_set type default_device_type refl;
        located = text_or_set location default_location refl;
      },
      e,
      refl,
    )

-- What the store returns is written as it is.
pub make_config_kept :
    (c : DeviceConfig) → IsConfig c → make_config c.address c.type c.name c.location ≡ ok c
unfolding make_config
make_config_kept c h =
    rw
      (
        h.normal,
        text_or_kept c.type default_device_type h.typed,
        text_or_kept c.location default_location h.located,
      )
      refl

pub read_file-asdict :
    (c : DeviceConfig) (stem : Text) → IsConfig c → read_file stem (asdict c) ≡ ok c
unfolding read_file
read_file-asdict c stem h = make_config_kept c h

pub save-eq-ok :
    (files files' : Files) (config saved : DeviceConfig)
    → save files config ≡ ok (saved, files')
    → IsConfig saved
      × (normalize_mac config.address ≡ ok saved.address)
      × (files' ≡ insert saved.address (asdict saved) files)
unfolding save
save-eq-ok files files' config saved h =
    let (c, e, f) =
      >>=-eq-ok (make_config config.address config.type config.name config.location) _ h in
    let both = ok-injective _ _ f in
    let same : c ≡ saved = ap (λ (r : DeviceConfig × Files). r.0) both in
    let (config', norm, _) =
      make_config-eq-ok config.address config.type config.name config.location saved
        (e ∙ ap ok same) in
    (
      config',
      norm,
      sym (ap (λ (r : DeviceConfig × Files). r.1) both)
          ∙ ap (λ (c : DeviceConfig). insert c.address (asdict c) files) same,
    )

pub save_kept :
    (files : Files) (c : DeviceConfig)
    → IsConfig c
    → save files c ≡ ok (c, insert c.address (asdict c) files)
unfolding save
save_kept files c h = rw (make_config_kept c h) refl

-- Once a config is saved, `load` returns it for every spelling of its address, and for every other
-- accepted address what it returned before.
pub load-save :
    (files files' : Files) (config saved : DeviceConfig) (address n : Text)
    → save files config ≡ ok (saved, files')
    → normalize_mac address ≡ ok n
    → load files' address ≡ (if text_eq saved.address n then ok saved else load files address)
unfolding load
load-save files files' config saved address n h norm =
    let (c, _, e) = save-eq-ok files files' config saved h in
    rw (norm, e, lookup-insert n saved.address (asdict saved) files)
      (found (text_eq saved.address n))
  where
    found :
        (b : Bool)
        → load_found n (if b then some (asdict saved) else lookup n files)
          ≡ (if b then ok saved else load_found n (lookup n files))
    found true = read_file-asdict saved n (save-eq-ok files files' config saved h).0
    found false = refl
