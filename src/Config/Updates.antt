-- ===== src/Config/Updates.antt =====
-- The updates of the device config store, from files that the store has written itself.
use mathlib.Core.Option.{some-injective}
use mathlib.Core.Path.{subst}
use slimhub_v.Prelude.{
  ◌≡◌, refl, sym, ap, ◌∙◌, inl, inr, Bool, true, false, [], ◌∷◌, arith, if◌then◌else◌, Text, codes,
  text_eq, text_eq_iff, text_eq_refl, text_eq_complete, Bool-cases, some, Option-cases, ok, ◌>>=◌,
  Result-cases,
}
use slimhub_v.Prelude.Dict.{lookup, insert, lookup-insert, insert_twice}
use slimhub_v.Protocol.Mac.{normalize_mac}
use slimhub_v.Events.{text_or}
use slimhub_v.Protocol.Mac.Laws.{normalize_mac_idem}
use slimhub_v.Config.{
  DeviceConfig, ConfigFile, Files, default_location, default_device_type, make_config, asdict, load,
  save, is_field, set_attribute, set_field, fill, choose, is_some, is_empty, ensure,
}
use slimhub_v.Config.Device.{
  IsConfig, read_file-asdict, save-eq-ok, save_kept, load-save, text_or_set,
}

-- A file as the store writes it: a config under its own address.
abbrev pub IsWritten : Text → ConfigFile → Type 0
IsWritten k f = (c : DeviceConfig) × IsConfig c × (c.address ≡ k) × (f ≡ asdict c)

-- Every file was written by the store.
abbrev pub IsConsistent : Files → Type 0
IsConsistent files = (k : Text) (f : ConfigFile) → lookup k files ≡ some f → IsWritten k f

-- If every file was written by the store, this is so after a `save` that succeeds.
pub save-IsConsistent :
    (files files' : Files) (config saved : DeviceConfig)
    → IsConsistent files
    → save files config ≡ ok (saved, files')
    → IsConsistent files'
save-IsConsistent files files' config saved h e k f found =
    let (c, _, same) = save-eq-ok files files' config saved e in
    let looked : (if text_eq saved.address k then some (asdict saved) else lookup k files)
        ≡ some f =
      sym (lookup-insert k saved.address (asdict saved) files) ∙ rw same at found in
    elim (Bool-cases (text_eq saved.address k)) [
      | inl here ↦
          let e' : asdict saved ≡ f = some-injective _ _ (rw here at looked) in
          (saved, c, (text_eq_iff saved.address k).0 here, sym e')
      | inr other ↦ h k f (rw other at looked)
    ]

-- The config of an address that has no file.
abbrev pub new_config : Text → DeviceConfig
new_config n = record {
  address = n;
  type = default_device_type;
  name = [];
  location = default_location;
}

pub new_config_made :
    (n : Text)
    → normalize_mac n ≡ ok n
    → make_config n default_device_type [] default_location ≡ ok (new_config n)
unfolding make_config
new_config_made n h = rw h refl

pub new_config-IsConfig : (n : Text) → normalize_mac n ≡ ok n → IsConfig (new_config n)
new_config-IsConfig n h = record { normal = h; typed = refl; located = refl }

-- From such files `load` gives, at every accepted address, a config of that address.
pub load-IsConfig :
    (files : Files) (address n : Text)
    → IsConsistent files
    → normalize_mac address ≡ ok n
    → (c : DeviceConfig) × (load files address ≡ ok c) × IsConfig c × (c.address ≡ n)
unfolding load
load-IsConfig files address n h norm = elim (Option-cases (lookup n files)) [
  | inl absent ↦
      let new : DeviceConfig = new_config n in
      (new, rw (norm, absent) (new_config_made n fixed), new_config-IsConfig n fixed, refl)
  | inr (f, present) ↦
      let (c, config, same, written) = h n f present in
      (c, rw (norm, present, written) (read_file-asdict c n config), config, same)
]
  where
    fixed : normalize_mac n ≡ ok n
    fixed = normalize_mac_idem address n norm

pub set_attribute-IsConfig :
    (field value : Text) (c : DeviceConfig) → IsConfig c → IsConfig (set_attribute field value c)
unfolding set_attribute
set_attribute-IsConfig field value c h = elim (Bool-cases (text_eq field (codes "location"))) [
  | inl l ↦ rw l (record {
    normal = h.normal;
    typed = h.typed;
    located = text_or_set value default_location refl;
  })
  | inr e ↦ elim (Bool-cases (text_eq field (codes "type"))) [
    | inl t ↦
        rw (e, t)
          (record {
            normal = h.normal;
            typed = text_or_set value default_device_type refl;
            located = h.located;
          })
    | inr f ↦ rw (e, f) (record { normal = h.normal; typed = h.typed; located = h.located })
  ]
]

-- What `set_field` makes of a config, field by field: an empty type or location becomes the default.
abbrev pub changed : Text → Text → DeviceConfig → DeviceConfig
changed field value c = record {
  address = c.address;
  type = if text_eq field (codes "type") then text_or value default_device_type else c.type;
  name = if text_eq field (codes "name") then value else c.name;
  location =
      if text_eq field (codes "location") then text_or value default_location else c.location;
}

pub set_attribute-changed :
    (field value : Text) (c : DeviceConfig)
    → is_field field ≡ true
    → set_attribute field value c ≡ changed field value c
unfolding set_attribute text_eq
set_attribute-changed field value c known = elim (Bool-cases (text_eq field (codes "location"))) [
  | inl l ↦ at (codes "location") l refl
  | inr other ↦ elim (Bool-cases (text_eq field (codes "type"))) [
    | inl t ↦ at (codes "type") t refl
    | inr another ↦ at (codes "name") (named other another known) refl
  ]
]
  where
    named :
        text_eq field (codes "location") ≡ false
        → text_eq field (codes "type") ≡ false
        → is_field field ≡ true
        → text_eq field (codes "name") ≡ true
    named a b h = ground (arith, a, b, h)

    at :
        (f : Text)
        → text_eq field f ≡ true
        → set_attribute f value c ≡ changed f value c
        → set_attribute field value c ≡ changed field value c
    at f e h =
        subst (λ (g : Text). set_attribute g value c ≡ changed g value c)
          (sym ((text_eq_iff field f).0 e)) h

pub address-set_attribute :
    (field value : Text) (c : DeviceConfig) → (set_attribute field value c).address ≡ c.address
unfolding set_attribute
address-set_attribute field value c = ground arith

-- What an update leaves: the config that it returns, at its address, and at every other address
-- what was there.
pub record Leaves (files : Files) (n : Text) (c : DeviceConfig) (files' : Files) : Type 0 where
  pub consistent : IsConsistent files'
  pub loads :
      (address : Text)
      → load files' address
        ≡ (do m ← normalize_mac address; if text_eq n m then ok c else load files address)

save-Leaves :
    (files : Files) (c : DeviceConfig) (n : Text)
    → IsConsistent files
    → IsConfig c
    → c.address ≡ n
    → Leaves files n c (insert c.address (asdict c) files)
save-Leaves files c n h config same =
    let e = save_kept files c config in
    record {
      consistent = save-IsConsistent files _ c c h e;
      loads = λ address. elim (Result-cases (normalize_mac address)) [
        | inl (m, norm) ↦ rw norm (
            load-save files _ c c address m e norm
            ∙ ap (λ (k : Text). if text_eq k m then ok c else load files address) same)
        | inr (error, bad) ↦ unfold load in rw bad refl
      ];
    }

-- If every file was written by the store, `set_field` of one of the three fields at an accepted
-- address succeeds: it returns the config that `load` gave, with the field set. The files stay so,
-- `load` gives the new config afterwards, and at every other address what it gave before.
pub set_field_lem :
    (files : Files) (address n field value : Text)
    → IsConsistent files
    → normalize_mac address ≡ ok n
    → is_field field ≡ true
    → (c : DeviceConfig) × (files' : Files) × (load files address ≡ ok c)
      × (set_field files address field value ≡ ok (set_attribute field value c, files'))
      × Leaves files n (set_attribute field value c) files'
unfolding set_field
set_field_lem files address n field value h norm known =
    let (c, e, config, same) = load-IsConfig files address n h norm in
    let config' = set_attribute-IsConfig field value c config in
    let c' : DeviceConfig = set_attribute field value c in
    (
      c,
      insert c'.address (asdict c') files,
      e,
      rw (known, e) (save_kept files c' config'),
      save-Leaves files c' n h config' (address-set_attribute field value c ∙ same),
    )

choose_set :
    (b : Bool) (given old : Text) → is_empty old ≡ false → is_empty (choose b given old) ≡ false
choose_set b given [] h = cc
choose_set true [] (x ∷ old) h = refl
choose_set true (g ∷ given) (x ∷ old) h = refl
choose_set false [] (x ∷ old) h = refl
choose_set false (g ∷ given) (x ∷ old) h = refl

choose_twice :
    (b : Bool) (given old : Text) → choose true given (choose b given old) ≡ choose b given old
choose_twice true [] [] = refl
choose_twice true [] (x ∷ old) = refl
choose_twice true (g ∷ given) [] = refl
choose_twice true (g ∷ given) (x ∷ old) = refl
choose_twice false [] [] = refl
choose_twice false [] (x ∷ old) = refl
choose_twice false (g ∷ given) [] = refl
choose_twice false (g ∷ given) (x ∷ old) = refl

pub fill-IsConfig :
    (existed : Bool) (device_type name : Text) (c : DeviceConfig)
    → IsConfig c
    → IsConfig (fill existed device_type name c)
fill-IsConfig existed device_type name c h = record {
  normal = h.normal;
  typed = choose_set existed device_type c.type h.typed;
  located = h.located;
}

ensure-fill :
    (files : Files) (address n device_type name : Text) (c : DeviceConfig)
    → normalize_mac address ≡ ok n
    → load files address ≡ ok c
    → IsConfig c
    → let c' = fill (is_some (lookup n files)) device_type name c in
      ensure files address device_type name ≡ ok (c', insert c'.address (asdict c') files)
unfolding ensure
ensure-fill files address n device_type name c norm e config =
    rw (norm, e)
      (save_kept files _ (fill-IsConfig (is_some (lookup n files)) device_type name c config))

fill_twice :
    (existed : Bool) (device_type name : Text) (c : DeviceConfig)
    → fill true device_type name (fill existed device_type name c) ≡ fill existed device_type name c
fill_twice existed device_type name c = λ i. record c {
  type = choose_twice existed device_type c.type i;
  name = choose_twice existed name c.name i;
}

ensure_filled :
    (files : Files) (address n device_type name : Text)
    → IsConsistent files
    → normalize_mac address ≡ ok n
    → (c : DeviceConfig) × (files' : Files) × (load files address ≡ ok c)
      × (ensure files address device_type name
          ≡ ok (fill (is_some (lookup n files)) device_type name c, files'))
      × Leaves files n (fill (is_some (lookup n files)) device_type name c) files'
      × (ensure files' address device_type name
          ≡ ok (fill (is_some (lookup n files)) device_type name c, files'))
ensure_filled files address n device_type name h norm =
    let (c, e, config, same) = load-IsConfig files address n h norm in
    let existed : Bool = is_some (lookup n files) in
    let c' : DeviceConfig = fill existed device_type name c in
    let files' : Files = insert c'.address (asdict c') files in
    let config' = fill-IsConfig existed device_type name c config in
    let left : Leaves files n c' files' = save-Leaves files c' n h config' same in
    let again : load files' address ≡ ok c' =
      left.loads address
      ∙ (rw norm refl)
      ∙ ap (λ (b : Bool). if b then ok c' else load files address) (text_eq_refl n) in
    let there : is_some (lookup n files') ≡ true =
      ap is_some (lookup-insert n c'.address (asdict c') files)
      ∙ ap (λ (b : Bool). is_some (if b then some (asdict c') else lookup n files))
          (text_eq_complete c'.address n same) in
    (
      c,
      files',
      e,
      ensure-fill files address n device_type name c norm e config,
      left,
      ensure-fill files' address n device_type name c' norm again config'
          ∙ ap (λ (d : DeviceConfig). ok (d, insert d.address (asdict d) files'))
              (ap (λ (b : Bool). fill b device_type name c') there
                ∙ fill_twice existed device_type name c)
          ∙ ap (λ (fs : Files). ok (c', fs)) (insert_twice c'.address (asdict c') files),
    )

-- What a text of a config becomes that was found in a file or not: one that is set in a file stays, an
-- empty one in a file becomes the one that is given, and of a new config it does if one is given.
abbrev pub kept_or_given : Bool → Text → Text → Text
kept_or_given true given [] = given
kept_or_given true given (x ∷ old) = x ∷ old
kept_or_given false [] old = old
kept_or_given false (g ∷ given) old = g ∷ given

pub choose-kept_or_given :
    (existed : Bool) (given old : Text) → choose existed given old ≡ kept_or_given existed given old
choose-kept_or_given true [] [] = refl
choose-kept_or_given true (g ∷ given) [] = refl
choose-kept_or_given true [] (x ∷ old) = refl
choose-kept_or_given true (g ∷ given) (x ∷ old) = refl
choose-kept_or_given false [] [] = refl
choose-kept_or_given false [] (x ∷ old) = refl
choose-kept_or_given false (g ∷ given) [] = refl
choose-kept_or_given false (g ∷ given) (x ∷ old) = refl

-- The config with its type and its name given.
abbrev pub completed : Bool → Text → Text → DeviceConfig → DeviceConfig
completed existed device_type name c = record {
  address = c.address;
  type = kept_or_given existed device_type c.type;
  name = kept_or_given existed name c.name;
  location = c.location;
}

pub fill-completed :
    (existed : Bool) (device_type name : Text) (c : DeviceConfig)
    → fill existed device_type name c ≡ completed existed device_type name c
fill-completed existed device_type name c = λ i. record c {
  type = choose-kept_or_given existed device_type c.type i;
  name = choose-kept_or_given existed name c.name i;
}

-- If every file was written by the store, `ensure` at an accepted address succeeds: in a config that has a
-- file, the type and the name that are set stay, and the empty ones become those given; in a new one they
-- are those given, if they are not empty. The address and the location stay. The files stay so, `load`
-- gives the config afterwards and at every other address what it gave before, and calling it again
-- returns the same config and changes no file.
pub ensure_lem :
    (files : Files) (address n device_type name : Text)
    → IsConsistent files
    → normalize_mac address ≡ ok n
    → (c : DeviceConfig) × (files' : Files) × (load files address ≡ ok c)
      × (ensure files address device_type name
          ≡ ok (completed (is_some (lookup n files)) device_type name c, files'))
      × Leaves files n (completed (is_some (lookup n files)) device_type name c) files'
      × (ensure files' address device_type name
          ≡ ok (completed (is_some (lookup n files)) device_type name c, files'))
ensure_lem files address n device_type name h norm =
    let (c, files', e, made, left, again) = ensure_filled files address n device_type name h norm in
    let (made', left', again') =
      subst
        (λ (d : DeviceConfig).
          (ensure files address device_type name ≡ ok (d, files'))
          × Leaves files n d files'
          × (ensure files' address device_type name ≡ ok (d, files')))
        (fill-completed (is_some (lookup n files)) device_type name c) (made, left, again) in
    (c, files', e, made', left', again')
