-- ===== src/Ble/Central.antt =====
-- `BleCentral` of slimhub/ble/central.py over the registry and the heap of sessions, with
-- `DeviceRegistry.send_command`. A session's number is its place in the heap.
pub mod Laws
use slimhub_v.Prelude.{
  ℕ, Bool, true, false, List, [], ◌∷◌, ◌++◌, length, get_elem?, set, Text, Option, none, some,
  Result, ok, err, ◌>>=◌, text_eq, if◌then◌else◌,
}
use slimhub_v.Prelude.Dict.{Dict}
use slimhub_v.Prelude.Sorting.{sort_by}
use slimhub_v.Protocol.Mac.{normalize_mac}
use slimhub_v.Events.{CommandEvent}
use slimhub_v.Config.{text_lt}
use slimhub_v.Ble.Registry.{DeviceRegistry, empty_registry, add, get}
use slimhub_v.Ble.Session.{
  Target, DeviceSession, new_session, update_target, start, enqueue, Status, status,
}

pub record BleCentral : Type 0 where
  pub registry : DeviceRegistry
  pub heap : List DeviceSession

abbrev pub empty_central : BleCentral
empty_central = record { registry = empty_registry; heap = [] }

-- A change of the object that a number refers to.
abbrev pub modify : ℕ → (DeviceSession → DeviceSession) → List DeviceSession → List DeviceSession
modify session f heap = elim (get_elem? heap session) [
  | none ↦ heap
  | some s ↦ set heap session (f s)
]

abbrev retarget : ℕ → Target → ℕ → BleCentral → Option DeviceSession → Result (ℕ × BleCentral)
retarget now target session c none = ok (session, c)
retarget now target session c (some s) = do
  s' ← update_target now target s
  ok (session, record c { heap = set c.heap session s' })

abbrev connect : ℕ → Target → BleCentral → Option ℕ → Result (ℕ × BleCentral)
connect now target c none = do
  s ← new_session target
  registry ← add c.registry (length c.heap) s.address
  ok (length c.heap, record { registry = registry; heap = c.heap ++ start s ∷ [] })
connect now target c (some session) = retarget now target session c (get_elem? c.heap session)

unfoldable pub ensure_target : ℕ → Target → BleCentral → Result (ℕ × BleCentral)
ensure_target now target c = do found ← get c.registry target.address; connect now target c found

unfoldable pub ensure_address : ℕ → Text → BleCentral → Result (ℕ × BleCentral)
unfolding ensure_target
ensure_address now address c = do
  normalized ← normalize_mac address
  ensure_target now (record { address = normalized; name = [] }) c

abbrev pub deliver : CommandEvent → BleCentral → Option ℕ → Bool × BleCentral
deliver command c none = (false, c)
deliver command c (some session) =
    (true, record c { heap = modify session (enqueue command) c.heap })

-- `DeviceRegistry.send_command`
unfoldable pub send_command : CommandEvent → BleCentral → Result (Bool × BleCentral)
send_command command c = do found ← get c.registry command.address; ok (deliver command c found)

-- `aliases` of the registry that lead to an address, sorted.
unfoldable pub aliases_to : Text → Dict Text → List Text
aliases_to address [] = []
aliases_to address ((alias, canonical) ∷ aliases) =
    let rest = aliases_to address aliases in
    if text_eq canonical address then alias ∷ rest else rest

pub record ListedStatus : Type 0 where
  pub status : Status
  pub aliases : List Text

abbrev listed : List Text → Option DeviceSession → List ListedStatus → List ListedStatus
listed aliases none rest = rest
listed aliases (some s) rest =
    record { status = status s; aliases = sort_by text_lt aliases } ∷ rest

unfoldable pub statuses : BleCentral → Dict ℕ → List ListedStatus
unfolding aliases_to
statuses c [] = []
statuses c ((address, session) ∷ sessions) =
    listed (aliases_to address c.registry.aliases) (get_elem? c.heap session) (statuses c sessions)

-- `DeviceRegistry.list_status`
unfoldable pub list_status : BleCentral → List ListedStatus
unfolding statuses
list_status c = statuses c c.registry.sessions
