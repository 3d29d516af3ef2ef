-- ===== src/Ble/Registry/Routing.antt =====
-- Where an address leads: to the session registered under it, else to the one that its alias names.
use mathlib.Core.Option.{some-injective}
use slimhub_v.Prelude.{
  ℕ, ◌≡◌, refl, sym, ap, ◌∙◌, ◌≢◌, inl, inr, Bool, true, false, [], arith, if◌then◌else◌, Text,
  text_eq, text_eq_iff, Bool-cases, Option, none, some, Option-cases, Result, ok, err, ok-injective,
  ◌>>=◌, >>=-eq-ok,
}
use slimhub_v.Prelude.Dict.{lookup, insert, lookup-insert}
use slimhub_v.Protocol.Mac.{normalize_mac}
use slimhub_v.Ble.Registry.{
  DeviceRegistry, empty_registry, add, by_alias, direct_or, find_session, get, register_alias,
  resolve_found, resolve_address,
}

-- Every alias names an address that has a session.
abbrev pub IsRouted : DeviceRegistry → Type 0
IsRouted r =
    (alias canonical : Text)
    → lookup alias r.aliases ≡ some canonical
    → (session : ℕ) × (lookup canonical r.sessions ≡ some session)

pub IsRouted-empty : IsRouted empty_registry
unfolding lookup
IsRouted-empty alias canonical h = cc

-- A key of a dict is still one after an insertion.
insert_keeps :
    (k j : Text) (v : ℕ) (d : slimhub_v.Prelude.Dict.Dict ℕ) (w : ℕ)
    → lookup j d ≡ some w
    → (u : ℕ) × (lookup j (insert k v d) ≡ some u)
insert_keeps k j v d w h = elim (Bool-cases (text_eq k j)) [
  | inl same ↦ (v, lookup-insert j k v d ∙ rw same refl)
  | inr other ↦ (w, lookup-insert j k v d ∙ rw other h)
]

-- If every alias names an address that has a session, this is so after a session is added.
pub add-IsRouted :
    (r r' : DeviceRegistry) (session : ℕ) (address : Text)
    → IsRouted r
    → add r session address ≡ ok r'
    → IsRouted r'
unfolding add
add-IsRouted r r' session address h e alias canonical found =
    let (n, _, e') = >>=-eq-ok (normalize_mac address) _ e in
    let same = sym (ok-injective _ _ e') in
    let (old, there) = h alias canonical (rw same at found) in
    rw same (insert_keeps n canonical session r.sessions old there)

module _ (r : DeviceRegistry) (alias canonical_address : Text) where
  -- The two ways that `register_alias` goes.
  pub register_alias_known :
      (a c : Text) (session : ℕ)
      → normalize_mac alias ≡ ok a
      → normalize_mac canonical_address ≡ ok c
      → lookup c r.sessions ≡ some session
      → register_alias r alias canonical_address ≡ ok (record r { aliases = insert a c r.aliases })
  unfolding register_alias
  register_alias_known a c session ha hc there = rw (ha, hc, there) refl

  pub register_alias_unknown :
      (a c : Text)
      → normalize_mac alias ≡ ok a
      → normalize_mac canonical_address ≡ ok c
      → lookup c r.sessions ≡ none
      → register_alias r alias canonical_address ≡ ok r
  unfolding register_alias
  register_alias_unknown a c ha hc absent = rw (ha, hc, absent) refl

alias_kept :
    (r : DeviceRegistry) (a c : Text) (session : ℕ)
    → IsRouted r
    → lookup c r.sessions ≡ some session
    → IsRouted (record r { aliases = insert a c r.aliases })
alias_kept r a c session h there alias canonical found =
    let looked = sym (lookup-insert alias a c r.aliases) ∙ found in
    elim (Bool-cases (text_eq a alias)) [
      | inl same ↦ (
        session,
        ap (λ (k : Text). lookup k r.sessions) (sym (some-injective _ _ (rw same at looked)))
            ∙ there,
      )
      | inr other ↦ h alias canonical (rw other at looked)
    ]

-- If every alias names an address that has a session, this is so after an alias is registered.
pub register_alias-IsRouted :
    (r r' : DeviceRegistry) (alias canonical_address : Text)
    → IsRouted r
    → register_alias r alias canonical_address ≡ ok r'
    → IsRouted r'
unfolding register_alias
register_alias-IsRouted r r' alias canonical_address h e =
    let (a, ha, e1) = >>=-eq-ok (normalize_mac alias) _ e in
    let (c, hc, e2) = >>=-eq-ok (normalize_mac canonical_address) _ e1 in
    elim (Option-cases (lookup c r.sessions)) [
      | inl absent ↦ rw (sym (ok-injective _ _ (rw absent at e2))) h
      | inr (session, there) ↦
          rw (sym (ok-injective _ _ (rw there at e2))) (alias_kept r a c session h there)
    ]

found_at :
    (r : DeviceRegistry) (n : Text) (session : Option ℕ) (alias : Option Text)
    → lookup n r.sessions ≡ session
    → direct_or session (by_alias r alias) ≡ lookup (resolve_found session alias n) r.sessions
found_at r n (some session) alias e = sym e
found_at r n none none e = sym e
found_at r n none (some canonical) e = refl

-- If `resolve_address` accepts an address, `get` gives the session that is registered under the
-- result, or none if there is none.
pub get-resolve_address :
    (r : DeviceRegistry) (address resolved : Text)
    → resolve_address r address ≡ ok resolved
    → get r address ≡ ok (lookup resolved r.sessions)
unfolding get resolve_address find_session
get-resolve_address r address resolved e =
    let (n, hn, e') = >>=-eq-ok (normalize_mac address) _ e in
    rw hn (
      ap ok (
        found_at r n (lookup n r.sessions) (lookup n r.aliases) refl
        ∙ ap (λ (k : Text). lookup k r.sessions) (ok-injective _ _ e')))

-- An alias that is registered for an address with a session leads to that session, from every
-- spelling of it, unless the alias is itself the address of a session; no other address changes.
pub get-register_alias :
    (r r' : DeviceRegistry) (alias canonical_address a c x n : Text) (session : ℕ)
    → normalize_mac alias ≡ ok a
    → normalize_mac canonical_address ≡ ok c
    → lookup c r.sessions ≡ some session
    → register_alias r alias canonical_address ≡ ok r'
    → normalize_mac x ≡ ok n
    → get r' x
      ≡ ok
          (if text_eq a n then direct_or (lookup n r.sessions) (some session) else find_session r n)
unfolding get find_session
get-register_alias r r' alias canonical_address a c x n session ha hc hs e hn =
    let same : r' ≡ record r { aliases = insert a c r.aliases } =
      ok-injective _ _
        (sym e ∙ register_alias_known r alias canonical_address a c session ha hc hs) in
    rw (hn, same, lookup-insert n a c r.aliases)
      (elim (Bool-cases (text_eq a n)) [
        | inl is_alias ↦ rw (is_alias, hs) refl
        | inr other ↦ rw other refl
      ])

-- A session that is added under an address without one leaves every address that leads to a session
-- where it leads.
pub find_session-insert :
    (r : DeviceRegistry) (n x : Text) (new session : ℕ)
    → find_session r n ≡ none
    → find_session r x ≡ some session
    → find_session (record r { sessions = insert n new r.sessions }) x ≡ some session
unfolding find_session
find_session-insert r n x new session absent found =
    let at_x = lookup-insert x n new r.sessions in
    let same = text_eq_iff n x in
    elim (Option-cases (lookup x r.sessions)) [
      | inr (old, direct) ↦ ground (arith, at_x, same, direct)
      | inl no_direct ↦ elim (Option-cases (lookup x r.aliases)) [
        | inl no_alias ↦ ground (arith, no_direct, no_alias)
        | inr (canonical, alias) ↦ ground (
          arith,
          at_x,
          same,
          no_direct,
          alias,
          lookup-insert canonical n new r.sessions,
          text_eq_iff n canonical,
        )
      ]
    ]
