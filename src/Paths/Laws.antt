-- ===== src/Paths/Laws.antt =====
-- Where the stores keep their files, and the hub's own address.
use mathlib.Core.List.{append_cancel_left, append_cancel_right, head-eq_of_cons-eq}
use slimhub_v.Prelude.{
  ℕ, ◌+◌, ◌*◌, ◌<◌, ◌≡◌, refl, sym, ap, ◌∙◌, ◌≢◌, ◌↔◌, true, ◌||◌, List, [], ◌∷◌, ◌++◌,
  append_assoc, length-append, length, arith, Text, Bytes, codes, ok, >>=-eq-ok, ok-injective,
}
use slimhub_v.Protocol.Mac.{normalize_mac, mac_to_bytes}
use slimhub_v.Protocol.Mac.RoundTrip.{mac_to_bytes-format_mac}
use slimhub_v.Logger.Store.{FilePath, path_eq_iff}
use slimhub_v.Paths.{
  AppPaths, programdata_dir, config_dir, data_dir, hub_config_path, is_dir, add_dir, mkdir, ensure,
  path_for, octets, get_mac_address,
}

-- The number that some bytes stand for, the highest first.
abbrev pub number_of : ℕ → Bytes → ℕ
number_of acc [] = acc
number_of acc (b ∷ bytes) = number_of (acc * 256 + b) bytes

octets_number : (mac : ℕ) → mac < 281474976710656 → number_of 0 (octets mac) ≡ mac
octets_number mac h = omega arith

-- The hub's own address, of a machine whose number has 48 bits, is one that `normalize_mac` accepts and
-- leaves as it is, and its bytes stand for that number again.
pub get_mac_address_lem :
    (mac : ℕ)
    → mac < 281474976710656
    → (normalize_mac (get_mac_address mac) ≡ ok (get_mac_address mac))
      × (bytes : Bytes) × (mac_to_bytes (get_mac_address mac) ≡ ok bytes)
      × (number_of 0 bytes ≡ mac)
unfolding get_mac_address
get_mac_address_lem mac h =
    let (norm, e) = mac_to_bytes-format_mac (octets mac) refl (omega arith) in
    (norm, octets mac, e, octets_number mac h)

is_dir-append :
    (p : FilePath) (dirs more : List FilePath)
    → is_dir p (dirs ++ more) ≡ (is_dir p dirs || is_dir p more)
unfolding is_dir
is_dir-append p [] more = refl
is_dir-append p (q ∷ dirs) more = ground (arith, is_dir-append p dirs more)

add_dir_self : (p : FilePath) (dirs : List FilePath) → is_dir p (add_dir p dirs) ≡ true
unfolding is_dir
add_dir_self p dirs = ground (arith, is_dir-append p dirs (p ∷ []), (path_eq_iff p p).1 refl)

add_dir_kept :
    (p q : FilePath) (dirs : List FilePath)
    → is_dir q dirs ≡ true
    → is_dir q (add_dir p dirs) ≡ true
add_dir_kept p q dirs h = ground (arith, is_dir-append q dirs (p ∷ []))

mkdir_kept :
    (q front rest : FilePath) (dirs : List FilePath)
    → is_dir q dirs ≡ true
    → is_dir q (mkdir front rest dirs) ≡ true
unfolding mkdir
mkdir_kept q front [] dirs h = h
mkdir_kept q front (part ∷ rest) dirs h =
    mkdir_kept q (front ++ part ∷ []) rest _ (add_dir_kept (front ++ part ∷ []) q dirs h)

-- Every directory on the way is there afterwards.
mkdir_made :
    (front way : FilePath) (part : Text) (rest : FilePath) (dirs : List FilePath)
    → is_dir (front ++ (way ++ part ∷ [])) (mkdir front (way ++ part ∷ rest) dirs) ≡ true
unfolding mkdir
mkdir_made front [] part rest dirs =
    mkdir_kept (front ++ part ∷ []) (front ++ part ∷ []) rest _
      (add_dir_self (front ++ part ∷ []) dirs)
mkdir_made front (x ∷ way) part rest dirs =
    ap
      (λ (p : FilePath).
        is_dir p (mkdir (front ++ x ∷ []) (way ++ part ∷ rest) (add_dir (front ++ x ∷ []) dirs)))
      (sym (append_assoc front (x ∷ []) (way ++ part ∷ [])))
    ∙ mkdir_made (front ++ x ∷ []) way part rest (add_dir (front ++ x ∷ []) dirs)

-- After `ensure`, the directories of the files that the program writes are there, and so is every
-- directory that was there before.
pub ensure_made :
    (paths : AppPaths) (dirs : List FilePath)
    → (is_dir (programdata_dir paths) (ensure paths dirs) ≡ true)
      × (is_dir (config_dir paths) (ensure paths dirs) ≡ true)
      × (is_dir (data_dir paths) (ensure paths dirs) ≡ true)
      × ((q : FilePath) → is_dir q dirs ≡ true → is_dir q (ensure paths dirs) ≡ true)
unfolding ensure
ensure_made paths dirs =
    let one = mkdir [] (programdata_dir paths) dirs in
    let two = mkdir [] (config_dir paths) one in
    (
      mkdir_kept (programdata_dir paths) [] (data_dir paths) two (
          mkdir_kept (programdata_dir paths) [] (config_dir paths) one
            (mkdir_made [] paths.base_dir (codes "programdata") [] dirs)),
      mkdir_kept (config_dir paths) [] (data_dir paths) two
          (mkdir_made [] (programdata_dir paths) (codes "config") [] one),
      mkdir_made [] paths.base_dir (codes "data") [] two,
      λ q there. mkdir_kept q [] (data_dir paths) two (
          mkdir_kept q [] (config_dir paths) one
            (mkdir_kept q [] (programdata_dir paths) dirs there)),
    )

path_for-eq-ok :
    (paths : AppPaths) (address : Text) (p : FilePath)
    → path_for paths address ≡ ok p
    → (n : Text) × (normalize_mac address ≡ ok n)
      × (p ≡ config_dir paths ++ (n ++ codes ".json") ∷ [])
unfolding path_for
path_for-eq-ok paths address p h =
    let (n, norm, e) = >>=-eq-ok (normalize_mac address) _ h in (n, norm, sym (ok-injective _ _ e))

same_name :
    (front : FilePath) (m n suffix : Text)
    → front ++ (m ++ suffix) ∷ [] ≡ front ++ (n ++ suffix) ∷ []
    → m ≡ n
same_name front m n suffix e =
    append_cancel_right m n suffix (head-eq_of_cons-eq (append_cancel_left front _ _ e))

-- Two addresses have the same config file exactly when they have the same normal form, and no config file
-- is the file of the hub's own config.
pub path_for_iff :
    (paths : AppPaths) (a b : Text) (p q : FilePath)
    → path_for paths a ≡ ok p
    → path_for paths b ≡ ok q
    → ((p ≡ q) ↔ (normalize_mac a ≡ normalize_mac b)) × (p ≢ hub_config_path paths)
path_for_iff paths a b p q ha hb =
    let (m, norm_a, ea) = path_for-eq-ok paths a p ha in
    let (n, norm_b, eb) = path_for-eq-ok paths b q hb in
    (
      (
        λ e.
            norm_a
            ∙ ap ok (same_name (config_dir paths) m n (codes ".json") (sym ea ∙ e ∙ eb))
            ∙ sym norm_b,
        λ e.
            let same : m ≡ n = ok-injective _ _ (sym norm_a ∙ e ∙ norm_b) in
            ea ∙ ap (λ (k : Text). config_dir paths ++ (k ++ codes ".json") ∷ []) same ∙ sym eb,
      ),
      λ e.
          let l = ap length (sym ea ∙ e) in
          omega (
            arith,
            l,
            length-append (config_dir paths) ((m ++ codes ".json") ∷ []),
            length-append (programdata_dir paths) (codes "config" ∷ []),
            length-append (programdata_dir paths) (codes "config.json" ∷ []),
          ),
    )
