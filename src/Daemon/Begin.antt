-- ===== src/Daemon/Begin.antt =====
-- `run` of slimhub/daemon.py up to where it waits for the stop event: the parts are started, then the
-- address of the command line is connected, then the scan task is created.
use slimhub_v.Prelude.{
  List, ◌≡◌, refl, ap, ℕ, [], ◌∷◌, Bool, true, Text, Error, Option, some, none, Result, ok, err,
  ◌⊎◌, inl, inr, Result-cases,
}
use slimhub_v.Protocol.Mac.{normalize_mac}
use slimhub_v.Ble.Registry.{get}
use slimhub_v.Ble.Session.{Status}
use slimhub_v.Daemon.{SlimHubDaemon, connect_address}
use slimhub_v.Daemon.Dispatch.{left_by_connect}
use slimhub_v.Daemon.Frames.{IsSound}
use slimhub_v.Config.Hub.{HubFile, load_or_create}
use slimhub_v.Ble.Task.{SessionTask}
use slimhub_v.Logger.Queue
use slimhub_v.Logger.Queue.{RawDataLogger}
use slimhub_v.Daemon.Sessions.{connect_address_lem}
use slimhub_v.Daemon.Socket.{Socket, start_server, served, start_server-served}

pub record Parts : Type 0 where
  pub tasks : List SessionTask
  pub logger : RawDataLogger
  pub hub_file : Option HubFile
  pub socket : Socket

-- What `run` starts before it waits for the stop event.
unfoldable pub start_parts : Text → Parts → Parts
unfolding start_server
start_parts own_mac p = record p {
  logger = Queue.start p.logger;
  hub_file = (load_or_create own_mac p.hub_file).1;
  socket = start_server p.socket;
}

-- Either `run` waits, with or without a scan task, or it has raised, outside the `try` block that stops
-- the parts.
pub data Begun : Type 0 where
  waits : Bool → Parts → SlimHubDaemon → Begun
  raises : Error → Parts → SlimHubDaemon → Begun

abbrev connected_or_raised :
    Bool → Parts → SlimHubDaemon → Result (Option Status × SlimHubDaemon) → Begun
connected_or_raised scan p left (ok (status, d)) = waits scan p d
connected_or_raised scan p left (err e) = raises e p left

-- `if address`, for an argument that may be missing or empty, and then `if scan`.
unfoldable pub connect_given : ℕ → Option Text → Bool → Parts → SlimHubDaemon → Begun
connect_given now none scan p d = waits scan p d
connect_given now (some []) scan p d = waits scan p d
connect_given now (some (x ∷ address)) scan p d =
    connected_or_raised scan p (left_by_connect now (x ∷ address) d)
      (connect_address now (x ∷ address) d)

unfoldable pub begin : ℕ → Text → Option Text → Bool → Parts → SlimHubDaemon → Begun
begin now own_mac address scan p d = connect_given now address scan (start_parts own_mac p) d

-- The parts that are started: the server listens and the logger's task runs.
pub start_parts-running :
    (own_mac : Text) (p : Parts)
    → ((start_parts own_mac p).socket ≡ served) × ((start_parts own_mac p).logger.running ≡ true)
unfolding start_parts slimhub_v.Logger.Queue.start
start_parts-running own_mac p = (start_server-served p.socket, refl)

-- From a sound daemon, `run` with an address that is not empty does one of two things. If `normalize_mac`
-- accepts the address, it gets to where it waits, with the scan task if there is to be one: the daemon is
-- sound, the address leads to a session, and the log and the estimator are the same. If not, it raises
-- that error with the daemon unchanged, and leaves what it started: the server still listens at the
-- socket, and the logger's task still runs.
pub begin_lem :
    (now : ℕ) (own_mac : Text) (x : ℕ) (address : Text) (scan : Bool) (p : Parts)
    (d : SlimHubDaemon)
    → IsSound d
    → ((n : Text) × (d' : SlimHubDaemon) × (session : ℕ) × (normalize_mac (x ∷ address) ≡ ok n)
        × (begin now own_mac (some (x ∷ address)) scan p d ≡ waits scan (start_parts own_mac p) d')
        × IsSound d'
        × (get d'.central.registry n ≡ ok (some session))
        × (d'.log ≡ d.log)
        × (d'.estimator ≡ d.estimator))
      ⊎ ((e : Error) × (parts : Parts) × (normalize_mac (x ∷ address) ≡ err e)
          × (begin now own_mac (some (x ∷ address)) scan p d ≡ raises e parts d)
          × (parts.socket ≡ served)
          × (parts.logger.running ≡ true))
unfolding begin connect_given left_by_connect connect_address
begin_lem now own_mac x address scan p d sound = elim (Result-cases (normalize_mac (x ∷ address))) [
  | inl (n, norm) ↦
      let (status, d', session, e, sound', found, log, estimator) =
        connect_address_lem now (x ∷ address) n d sound norm in
      inl (
        n,
        d',
        session,
        norm,
        ap (connected_or_raised scan (start_parts own_mac p) _) e,
        sound',
        found,
        log,
        estimator,
      )
  | inr (e, failed) ↦
      let (served', running) = start_parts-running own_mac p in
      inr (e, start_parts own_mac p, failed, rw failed refl, served', running)
]

-- The address of the command line is missing, empty or accepted.
abbrev pub IsConnectable : Option Text → Type 0
IsConnectable none = Unit
IsConnectable (some []) = Unit
IsConnectable (some (x ∷ address)) = (n : Text) × (normalize_mac (x ∷ address) ≡ ok n)

-- Then `run` of a sound daemon gets to where it waits.
pub begin-waits :
    (now : ℕ) (own_mac : Text) (address : Option Text) (scan : Bool) (p : Parts) (d : SlimHubDaemon)
    → IsSound d
    → IsConnectable address
    → (d' : SlimHubDaemon) × (begin now own_mac address scan p d
        ≡ waits scan (start_parts own_mac p) d')
unfolding begin connect_given
begin-waits now own_mac none scan p d sound h = (d, refl)
begin-waits now own_mac (some []) scan p d sound h = (d, refl)
begin-waits now own_mac (some (x ∷ address)) scan p d sound (n, norm) =
    let (_, d', _, e, _, _, _, _) = connect_address_lem now (x ∷ address) n d sound norm in
    (d', ap (connected_or_raised scan (start_parts own_mac p) _) e)
