-- ===== src/Protocol/Mac/Laws.antt =====
-- What `normalize_mac` keeps of an address: its hex digits, upper case, in their order.
use slimhub_v.Prelude.{
  ℕ, ◌≡◌, refl, sym, ap, ◌∙◌, ◌↔◌, true, List, [], ◌∷◌, map, arith, ◌==◌, if◌then◌else◌, length,
  filter, length-map, All, Text, join, ok, err, invalid_mac,
}
use slimhub_v.Protocol.Mac.{is_hex, upper, pairs, colon, normalize_mac}

-- The hex digits of a text, upper case.
abbrev pub mac_digits : Text → Text
mac_digits mac = map upper (filter is_hex mac)

pub upper-is_hex : (c : ℕ) → is_hex c ≡ true → is_hex (upper c) ≡ true
upper-is_hex c h = ground arith

pub upper_idem : (c : ℕ) → upper (upper c) ≡ upper c
upper_idem c = ground arith

pub filter-is_hex : (s : Text) → All (λ c. is_hex c ≡ true) (filter is_hex s)
filter-is_hex [] = tt
filter-is_hex (c ∷ s) = ground (arith, filter-is_hex s)

pub All-mac_digits : (s : Text) → All (λ c. is_hex c ≡ true) (mac_digits s)
All-mac_digits [] = tt
All-mac_digits (c ∷ s) = ground (arith, All-mac_digits s, upper-is_hex c)

-- Joined pairs of hex digits hold those digits.
pub filter-join-pairs :
    (s : Text)
    → All (λ c. is_hex c ≡ true) s
    → filter is_hex (join colon (map (map upper) (pairs s))) ≡ map upper s
unfolding join pairs
filter-join-pairs [] h = refl
filter-join-pairs (a ∷ []) (ha, _) = ground (arith, upper-is_hex a)
filter-join-pairs (a ∷ b ∷ []) (ha, (hb, _)) = ground (arith, upper-is_hex a, upper-is_hex b)
filter-join-pairs (a ∷ b ∷ c ∷ []) (ha, (hb, (hc, _))) =
    ground (arith, upper-is_hex a, upper-is_hex b, upper-is_hex c)
filter-join-pairs (a ∷ b ∷ c ∷ d ∷ rest) (ha, (hb, h)) =
    ground (arith, upper-is_hex a, upper-is_hex b, filter-join-pairs (c ∷ d ∷ rest) h)

pairs-map-upper : (s : Text) → pairs (map upper s) ≡ map (map upper) (pairs s)
unfolding pairs
pairs-map-upper [] = refl
pairs-map-upper (a ∷ []) = refl
pairs-map-upper (a ∷ b ∷ rest) =
    ap (λ (t : List Text). (upper a ∷ upper b ∷ []) ∷ t) (pairs-map-upper rest)

map-upper_idem : (s : Text) → map upper (map upper s) ≡ map upper s
map-upper_idem [] = refl
map-upper_idem (c ∷ s) = cc (upper_idem c, map-upper_idem s)

-- `normalize_mac` by its digits alone.
pub normalize_mac_lem :
    (mac : Text)
    → normalize_mac mac ≡ (
        if length (mac_digits mac) == 12
        then ok (join colon (pairs (mac_digits mac)))
        else err (invalid_mac mac))
unfolding normalize_mac
normalize_mac_lem mac =
    rw (pairs-map-upper (filter is_hex mac), length-map upper (filter is_hex mac)) refl

-- The digits of a joined address are the digits that were joined.
pub mac_digits-join :
    (s : Text)
    → All (λ c. is_hex c ≡ true) s
    → map upper s ≡ s
    → mac_digits (join colon (pairs s)) ≡ s
mac_digits-join s h u =
    let e : map (map upper) (pairs s) ≡ pairs s = sym (pairs-map-upper s) ∙ ap pairs u in
    ap (map upper) (rw e at (filter-join-pairs s h)) ∙ map-upper_idem s ∙ u

-- A successful normalization: there were twelve digits, and the result joins their pairs.
pub normalize_mac-eq-ok :
    (mac n : Text)
    → normalize_mac mac ≡ ok n
    → (length (mac_digits mac) ≡ 12) × (n ≡ join colon (pairs (mac_digits mac)))
normalize_mac-eq-ok mac n h = ground (arith, sym (normalize_mac_lem mac) ∙ h)

pub normalize_mac_of_length :
    (mac : Text)
    → length (mac_digits mac) ≡ 12
    → normalize_mac mac ≡ ok (join colon (pairs (mac_digits mac)))
normalize_mac_of_length mac h = rw normalize_mac_lem (ground arith)

-- The digits of a normalized address are those of the address it was made from.
pub mac_digits-normalize_mac :
    (mac n : Text) → normalize_mac mac ≡ ok n → mac_digits n ≡ mac_digits mac
mac_digits-normalize_mac mac n h =
    rw ((normalize_mac-eq-ok mac n h).1)
      (mac_digits-join (mac_digits mac) (All-mac_digits mac) (map-upper_idem (filter is_hex mac)))

-- A normalized address normalizes to itself.
pub normalize_mac_idem : (mac n : Text) → normalize_mac mac ≡ ok n → normalize_mac n ≡ ok n
normalize_mac_idem mac n h =
    let d = mac_digits-normalize_mac mac n h in
    let (l, e) = normalize_mac-eq-ok mac n h in
    normalize_mac_of_length n (ap length d ∙ l)
    ∙ ap (λ (s : Text). ok (join colon (pairs s))) d
    ∙ ap ok (sym e)

-- Two accepted addresses have the same normal form exactly when their hex digits agree, upper case,
-- whatever separators and other characters stand between them.
pub normalize_mac-eq_iff :
    (a b m n : Text)
    → normalize_mac a ≡ ok m
    → normalize_mac b ≡ ok n
    → (m ≡ n) ↔ (mac_digits a ≡ mac_digits b)
normalize_mac-eq_iff a b m n ha hb = (
  λ e. sym (mac_digits-normalize_mac a m ha) ∙ ap mac_digits e ∙ mac_digits-normalize_mac b n hb,
  λ e.
      (normalize_mac-eq-ok a m ha).1
      ∙ ap (λ (s : Text). join colon (pairs s)) e
      ∙ sym (normalize_mac-eq-ok b n hb).1,
)
