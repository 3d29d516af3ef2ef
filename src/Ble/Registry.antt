-- ===== src/Ble/Registry.antt =====
-- `DeviceRegistry` of slimhub/ble/registry.py: the sessions by address, and the aliases of addresses.
-- The methods hold its lock from their first access to their last, so each is one step.
pub mod Routing
use slimhub_v.Prelude.{ℕ, Bool, true, false, [], Text, Option, none, some, Result, ok, ◌>>=◌}
use slimhub_v.Prelude.Dict.{Dict, lookup, insert}
use slimhub_v.Protocol.Mac.{normalize_mac}

pub record DeviceRegistry : Type 0 where
  pub sessions : Dict ℕ
  pub aliases : Dict Text

abbrev pub empty_registry : DeviceRegistry
empty_registry = record { sessions = []; aliases = [] }

-- `add`, of the session with this number and address
unfoldable pub add : DeviceRegistry → ℕ → Text → Result DeviceRegistry
add r session address = do
  normalized ← normalize_mac address
  ok (record r { sessions = insert normalized session r.sessions })

abbrev by_alias : DeviceRegistry → Option Text → Option ℕ
by_alias r none = none
by_alias r (some canonical) = lookup canonical r.sessions

abbrev pub direct_or : Option ℕ → Option ℕ → Option ℕ
direct_or none other = other
direct_or (some session) other = some session

-- The part of `get` after the address is normalized.
unfoldable pub find_session : DeviceRegistry → Text → Option ℕ
find_session r normalized =
    direct_or (lookup normalized r.sessions) (by_alias r (lookup normalized r.aliases))

unfoldable pub get : DeviceRegistry → Text → Result (Option ℕ)
get r address = do normalized ← normalize_mac address; ok (find_session r normalized)

abbrev pub when_registered : Option ℕ → DeviceRegistry → DeviceRegistry → DeviceRegistry
when_registered none old new = old
when_registered (some session) old new = new

unfoldable pub register_alias : DeviceRegistry → Text → Text → Result DeviceRegistry
register_alias r alias canonical_address = do
  normalized_alias ← normalize_mac alias
  normalized_canonical ← normalize_mac canonical_address
  ok (
      when_registered (lookup normalized_canonical r.sessions) r
        (record r { aliases = insert normalized_alias normalized_canonical r.aliases }))

abbrev pub resolve_found : Option ℕ → Option Text → Text → Text
resolve_found (some session) alias normalized = normalized
resolve_found none none normalized = normalized
resolve_found none (some canonical) normalized = canonical

unfoldable pub resolve_address : DeviceRegistry → Text → Result Text
resolve_address r address = do
  normalized ← normalize_mac address
  ok (resolve_found (lookup normalized r.sessions) (lookup normalized r.aliases) normalized)
