-- ===== src/Config/Shelf/Replay.antt =====
-- Every sequence of calls of the config store answers as the shelf does.
use mathlib.Core.Option.{some-injective}
use mathlib.Core.Path.{subst}
use slimhub_v.Prelude.{
  ◌≡◌, refl, sym, ap, ◌∙◌, inl, inr, Bool, true, false, List, [], ◌∷◌, if◌then◌else◌, Text, text_eq,
  text_eq_iff, Bool-cases, Option, none, some, Option-cases, Error, Result, Result-cases, ok, err,
  bad_field, All, is_encodable,
}
use slimhub_v.Prelude.Dict.{lookup, insert, lookup-insert}
use slimhub_v.Protocol.Mac.{normalize_mac}
use slimhub_v.Protocol.Mac.Laws.{normalize_mac_idem}
use slimhub_v.Config.{
  DeviceConfig, Files, make_config, asdict, load, save, is_field, set_attribute, set_field, fill,
  is_some, ensure,
}
use slimhub_v.Config.Device.{IsConfig, read_file-asdict, make_config-eq-ok, save_kept}
use slimhub_v.Config.Updates.{
  new_config_made, new_config-IsConfig, set_attribute-IsConfig, address-set_attribute,
  fill-IsConfig, set_attribute-changed, fill-completed,
}
use slimhub_v.Config.Shelf.{
  Operation, texts_of, loading, saving, setting, ensuring, kept_files, beside, call, run, Shelf,
  config_at, put, has, on_shelf, kept_shelf, replay, filed, IsFiled,
}

-- No files, and nothing on the shelf.
pub IsFiled-empty : IsFiled [] (λ n. none)
unfolding lookup
IsFiled-empty = record { entries = λ n. refl; configs = λ n c found. cc }

module _ (files : Files) (shelf : Shelf) (h : IsFiled files shelf) where
  put-IsFiled :
      (n : Text) (c : DeviceConfig)
      → IsConfig c
      → c.address ≡ n
      → IsFiled (insert c.address (asdict c) files) (put n c shelf)
  put-IsFiled n c config same = record {
    entries = λ m.
        lookup-insert m c.address (asdict c) files
        ∙ ap (λ (k : Text). if text_eq k m then some (asdict c) else lookup m files) same
        ∙ either m (text_eq n m);
    configs = λ m d found. elim (Bool-cases (text_eq n m)) [
      | inl here ↦
          let c_is_d : c ≡ d = some-injective c d (rw here at found) in
          (
            rw (sym c_is_d) config,
            ap (λ (x : DeviceConfig). x.address) (sym c_is_d) ∙ same ∙ (text_eq_iff n m).0 here,
          )
      | inr other ↦ h.configs m d (rw other at found)
    ];
  }
    where
      either :
          (m : Text) (b : Bool)
          → (if b then some (asdict c) else lookup m files) ≡ filed (if b then some c else shelf m)
      either m true = refl
      either m false = h.entries m

  load_filed :
      (address n : Text)
      → normalize_mac address ≡ ok n
      → (load files address ≡ ok (config_at n (shelf n)))
        × IsConfig (config_at n (shelf n))
        × ((config_at n (shelf n)).address ≡ n)
  unfolding load
  load_filed address n norm =
      let fixed = normalize_mac_idem address n norm in
      elim (Option-cases (shelf n)) [
        | inl absent ↦
            rw (absent, norm, h.entries n ∙ ap filed absent)
              (new_config_made n fixed, new_config-IsConfig n fixed, refl)
        | inr (c, there) ↦
            let (config, same) = h.configs n c there in
            rw (there, norm, h.entries n ∙ ap filed there)
              (read_file-asdict c n config, config, same)
      ]

  has_file : (n : Text) → is_some (lookup n files) ≡ has (shelf n)
  has_file n = ap is_some (h.entries n) ∙ filed_is_some (shelf n)
    where
      filed_is_some : (c : Option DeviceConfig) → is_some (filed c) ≡ has c
      filed_is_some none = refl
      filed_is_some (some c) = refl

-- Two answers that agree, with what they leave.
data Agrees : Result (DeviceConfig × Files) → Result (DeviceConfig × Shelf) → Type 0 where
  both_refuse : (e : Error) → Agrees (err e) (err e)
  both_answer :
      (c : DeviceConfig) (files : Files) (shelf : Shelf)
      → IsFiled files shelf
      → Agrees (ok (c, files)) (ok (c, shelf))

module _ (files : Files) (shelf : Shelf) (h : IsFiled files shelf) where
  load-Agrees :
      (address : Text)
      → Agrees (beside files (load files address)) (on_shelf (loading address) shelf)
  load-Agrees address = elim (Result-cases (normalize_mac address)) [
    | inr (e, bad) ↦ unfold load in rw bad (both_refuse e)
    | inl (n, norm) ↦
        let (loads, _, _) = load_filed files shelf h address n norm in
        rw (norm, loads) (both_answer (config_at n (shelf n)) files shelf h)
  ]

  save-Agrees :
      (config : DeviceConfig) → Agrees (save files config) (on_shelf (saving config) shelf)
  unfolding save
  save-Agrees config =
      elim (Result-cases (make_config config.address config.type config.name config.location)) [
        | inr (e, bad) ↦ rw bad (both_refuse e)
        | inl (c, made) ↦
            let (is_config, _, _) =
              make_config-eq-ok config.address config.type config.name config.location c made in
            rw made (both_answer c _ _ (put-IsFiled files shelf h c.address c is_config refl))
      ]

  set-Agrees :
      (address field value : Text)
      → Agrees (set_field files address field value) (on_shelf (setting address field value) shelf)
  unfolding set_field
  set-Agrees address field value = elim (Bool-cases (is_field field)) [
    | inr unknown ↦ rw unknown (both_refuse bad_field)
    | inl known ↦ elim (Result-cases (normalize_mac address)) [
      | inr (e, bad) ↦ rw known (unfold load in rw bad (both_refuse e))
      | inl (n, norm) ↦
          let (loads, is_config, same) = load_filed files shelf h address n norm in
          let c = set_attribute field value (config_at n (shelf n)) in
          let is_config' = set_attribute-IsConfig field value (config_at n (shelf n)) is_config in
          rw
            (
              known,
              norm,
              loads,
              save_kept files c is_config',
              set_attribute-changed field value (config_at n (shelf n)) known,
            )
            (subst
              (λ (d : DeviceConfig).
                Agrees (ok (d, insert d.address (asdict d) files)) (ok (d, put n d shelf)))
              (set_attribute-changed field value (config_at n (shelf n)) known)
              (both_answer c _ _ (
                put-IsFiled files shelf h n c is_config'
                  (address-set_attribute field value (config_at n (shelf n)) ∙ same))))
    ]
  ]

  ensure-Agrees :
      (address device_type name : Text)
      → Agrees
          (ensure files address device_type name)
          (on_shelf (ensuring address device_type name) shelf)
  unfolding ensure
  ensure-Agrees address device_type name = elim (Result-cases (normalize_mac address)) [
    | inr (e, bad) ↦ rw bad (both_refuse e)
    | inl (n, norm) ↦
        let (loads, is_config, same) = load_filed files shelf h address n norm in
        let c = fill (has (shelf n)) device_type name (config_at n (shelf n)) in
        let is_config' =
          fill-IsConfig (has (shelf n)) device_type name (config_at n (shelf n)) is_config in
        rw (norm, loads, has_file files shelf h n, save_kept files c is_config')
          (subst
            (λ (d : DeviceConfig).
              Agrees (ok (c, insert c.address (asdict c) files)) (ok (d, put n d shelf)))
            (fill-completed (has (shelf n)) device_type name (config_at n (shelf n)))
            (both_answer c _ _ (put-IsFiled files shelf h n c is_config' same)))
  ]

  call-Agrees : (op : Operation) → Agrees (call op files) (on_shelf op shelf)
  call-Agrees (loading address) = load-Agrees address
  call-Agrees (saving config) = save-Agrees config
  call-Agrees (setting address field value) = set-Agrees address field value
  call-Agrees (ensuring address device_type name) = ensure-Agrees address device_type name

  kept-Agrees :
      (r : Result (DeviceConfig × Files)) (t : Result (DeviceConfig × Shelf))
      → Agrees r t
      → ((kept_files files r).0 ≡ (kept_shelf shelf t).0)
        × IsFiled (kept_files files r).1 (kept_shelf shelf t).1
  kept-Agrees _ _ (both_refuse e) = (refl, h)
  kept-Agrees _ _ (both_answer c files' shelf' h') = (refl, h')

-- If the files hold what a shelf has, then so they do after any calls of the store with texts that can be
-- encoded, and every call is answered as it is on the shelf: with the same config, or refused with the same
-- error. So a call depends on nothing but the configs that were saved last, address by address; the order
-- of the files and the spelling of an address do not matter.
pub run-replay :
    (ops : List Operation) (files : Files) (shelf : Shelf)
    → All (λ (op : Operation). All (λ (t : Text). is_encodable t ≡ true) (texts_of op)) ops
    → IsFiled files shelf
    → ((run ops files).0 ≡ (replay ops shelf).0) × IsFiled (run ops files).1 (replay ops shelf).1
unfolding run replay
run-replay [] files shelf encodes h = (refl, h)
run-replay (op ∷ ops) files shelf (_, encodes) h =
    let (same, h') =
      kept-Agrees files shelf h (call op files) (on_shelf op shelf)
        (call-Agrees files shelf h op) in
    let (rest, h'') = run-replay ops _ _ encodes h' in (λ i. same i ∷ rest i, h'')
