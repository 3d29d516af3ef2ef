-- ===== src/Config/Listing.antt =====
-- `list_all` of slimhub/config.py: the configs of all files, each once, in the order of their names.
use mathlib.Core.List.{Perm}
use slimhub_v.Prelude.{
  ◌≡◌, refl, sym, ap, ◌∙◌, inl, inr, Bool-cases, List, [], ◌∷◌, map, All, Text, text_eq,
  text_eq_iff, ok,
}
use slimhub_v.Prelude.Sorting.{sort_by, sort_by-perm, sort_by-All}
use slimhub_v.Prelude.Dict.{insert}
use slimhub_v.Config.{
  DeviceConfig, ConfigFile, Files, asdict, read_file, save, text_lt, sorted, read_all, list_all,
}
use slimhub_v.Config.Device.{IsConfig, read_file-asdict, save-eq-ok}
use slimhub_v.Config.Updates.{IsWritten}

-- Every entry of the directory was written by the store.
abbrev pub IsStored : Files → Type 0
IsStored = All (λ e. IsWritten e.0 e.1)

insert-IsStored :
    (k : Text) (f : ConfigFile) (files : Files)
    → IsWritten k f
    → IsStored files
    → IsStored (insert k f files)
unfolding insert
insert-IsStored k f [] w h = (w, tt)
insert-IsStored k f ((j, g) ∷ files) w (hj, h) = elim (Bool-cases (text_eq j k)) [
  | inl same ↦
      let (c, config, address, written) = w in
      rw same ((c, config, address ∙ sym ((text_eq_iff j k).0 same), written), h)
  | inr other ↦ rw other (hj, insert-IsStored k f files w h)
]

pub save-IsStored :
    (files files' : Files) (config saved : DeviceConfig)
    → IsStored files
    → save files config ≡ ok (saved, files')
    → IsStored files'
save-IsStored files files' config saved h e =
    let (c, _, same) = save-eq-ok files files' config saved e in
    rw same (insert-IsStored saved.address (asdict saved) files (saved, c, refl, refl) h)

abbrev pub entry_of : DeviceConfig → Text × ConfigFile
entry_of c = (c.address, asdict c)

read_all_lem :
    (files : Files)
    → IsStored files
    → (configs : List DeviceConfig) × (read_all files ≡ ok configs)
      × (map entry_of configs ≡ files)
      × All IsConfig configs
unfolding read_all
read_all_lem [] h = ([], refl, refl, tt)
read_all_lem ((k, f) ∷ files) ((c, config, address, written), h) =
    let (configs, e, same, all) = read_all_lem files h in
    let read : read_file k f ≡ ok c = ap (read_file k) written ∙ read_file-asdict c k config in
    (c ∷ configs, rw (read, e) refl, (λ i. (address i, sym written i) ∷ same i), (config, all))

-- If every entry of the directory was written by the store, `list_all` succeeds, and its configs are,
-- entry for entry, the files in sorted order, which is a permutation of the directory.
pub list_all-perm :
    (files : Files)
    → IsStored files
    → (configs : List DeviceConfig) × (list_all files ≡ ok configs)
      × (map entry_of configs ≡ sorted files)
      × Perm (map entry_of configs) files
      × All IsConfig configs
unfolding list_all sorted
list_all-perm files h =
    let lt = λ (e f : Text × ConfigFile). text_lt e.0 f.0 in
    let (configs, e, same, all) =
      read_all_lem (sort_by lt files) (sort_by-All lt (λ e. IsWritten e.0 e.1) files h) in
    (configs, e, same, rw same (sort_by-perm lt files), all)
