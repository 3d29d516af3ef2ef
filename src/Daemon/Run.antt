-- ===== src/Daemon/Run.antt =====
-- `run` of slimhub/daemon.py with `stop_all` of slimhub/ble/registry.py: what is started, and what is
-- stopped when the stop event is set. What happens in between to the sessions and to the logger is an
-- argument. Signals, the directories and the socket itself are left out.
use slimhub_v.Prelude.{
  ℕ, Bool, err, ◌≤◌, ◌≡◌, refl, ap, ◌∙◌, true, List, [], ◌∷◌, length, All, Text, Option, Result, ok,
  ◌>>=◌, >>=-eq-ok, suc,
}
use slimhub_v.Daemon.{SlimHubDaemon}
use slimhub_v.Daemon.Frames.{IsSound}
use slimhub_v.Daemon.Begin.{
  Parts, start_parts, Begun, waits, raises, begin, IsConnectable, begin-waits,
}
use slimhub_v.Daemon.Socket.{Socket, closed, start_server, stop_server, stop_server-closed}
use slimhub_v.Config.Hub.{HubFile, load_or_create}
use slimhub_v.Ble.Task.{SessionTask, Event, stops, perform, perform_all}
use slimhub_v.Ble.Task.Ending.{is_over, resumptions, stops-is_over}
use slimhub_v.Logger.{Machine}
use slimhub_v.Logger.Store.{FilePath, DataDir, lines_of}
use slimhub_v.Logger.Queue
use slimhub_v.Logger.Queue.{RawDataLogger, Call, logged, stopped, perform_all-stop, write_all}
use slimhub_v.Logger.Lines.{AreWritable, lines_after, write_all-lines_after}

-- `DeviceSession.stop`: the task is awaited, while events happen to it.
abbrev pub stop_session : List Event → SessionTask → SessionTask
stop_session events t = perform_all events (perform stops t)

-- `stop_all`, of the sessions with what happens to each while it is awaited.
unfoldable pub stop_all : List (List Event × SessionTask) → List SessionTask
stop_all [] = []
stop_all ((events, t) ∷ sessions) = stop_session events t ∷ stop_all sessions

-- The `finally` block.
unfoldable pub stop_parts : Machine → List (List Event × SessionTask) → Parts → Result Parts
unfolding stop_all stop_server
stop_parts machine sessions p = do
  logger ← Queue.stop machine p.logger
  ok (record p { tasks = stop_all sessions; logger = logger; socket = stop_server p.socket })

-- What follows the start: the wait and the `finally` block, or the exception.
abbrev pub after_begin :
    Machine → List Call → List (List Event × SessionTask) → Begun → Result Parts
after_begin machine calls sessions (raises e started d) = err e
after_begin machine calls sessions (waits scan started d) = do
  logger ← Queue.perform_all machine calls started.logger
  stop_parts machine sessions (record started { logger = logger })

-- `run`, with the calls of the logger until it is stopped, and the sessions that there are by then.
unfoldable pub run :
    Machine
    → ℕ
    → Text
    → Option Text
    → Bool
    → List Call
    → List (List Event × SessionTask)
    → Parts
    → SlimHubDaemon
    → Result Parts
unfolding begin stop_parts
run machine now own_mac address scan calls sessions p d =
    after_begin machine calls sessions (begin now own_mac address scan p d)

stop_all-is_over :
    (sessions : List (List Event × SessionTask))
    → All (λ (s : List Event × SessionTask). 6 ≤ resumptions s.0) sessions
    → All (λ (t : SessionTask). is_over t.phase ≡ true) (stop_all sessions)
unfolding stop_all perform_all
stop_all-is_over [] all = tt
stop_all-is_over ((events, t) ∷ sessions) (enough, all) =
    (stops-is_over [] events t enough, stop_all-is_over sessions all)

length-stop_all :
    (sessions : List (List Event × SessionTask)) → length (stop_all sessions) ≡ length sessions
unfolding stop_all
length-stop_all [] = refl
length-stop_all ((events, t) ∷ sessions) = ap suc (length-stop_all sessions)

pub run_lem :
    (machine : Machine) (now : ℕ) (own_mac : Text) (address : Option Text) (scan : Bool)
    (calls : List Call) (sessions : List (List Event × SessionTask)) (tasks : List SessionTask)
    (dir : DataDir) (hub_file : Option HubFile) (socket : Socket) (d : SlimHubDaemon)
    → IsSound d
    → IsConnectable address
    → All (λ (s : List Event × SessionTask). 6 ≤ resumptions s.0) sessions
    → AreWritable machine (logged calls)
    → (p : Parts) × (dir' : DataDir) × (run machine now own_mac address scan calls sessions
          (record { tasks = tasks; logger = stopped dir; hub_file = hub_file; socket = socket })
          d
        ≡ ok p)
      × (length p.tasks ≡ length sessions)
      × All (λ (t : SessionTask). is_over t.phase ≡ true) p.tasks
      × (p.socket ≡ closed)
      × (p.logger ≡ stopped dir')
      × ((q : FilePath) → lines_of q dir' ≡ lines_after machine q (logged calls) (lines_of q dir))
unfolding run start_parts stop_parts
run_lem machine now own_mac address scan calls sessions tasks dir hub_file socket d sound connects
      enough writable =
    let (dir', made, held) = write_all-lines_after machine (logged calls) dir writable in
    let ended : (do
      l ← Queue.perform_all machine calls (Queue.start (stopped dir))
      Queue.stop machine l)
        ≡ ok (stopped dir') =
      perform_all-stop machine calls dir ∙ rw made refl in
    let (logger, worked, stops_there) =
      >>=-eq-ok (Queue.perform_all machine calls (Queue.start (stopped dir))) _ ended in
    let parts : Parts = record {
      tasks = tasks;
      logger = stopped dir;
      hub_file = hub_file;
      socket = socket;
    } in
    let (d', begun) = begin-waits now own_mac address scan parts d sound connects in
    let finished = ap (after_begin machine calls sessions) begun in
    (
      record {
        tasks = stop_all sessions;
        logger = stopped dir';
        hub_file = (load_or_create own_mac hub_file).1;
        socket = closed;
      },
      dir',
      finished ∙ rw (worked, stops_there, stop_server-closed (start_server socket)) refl,
      length-stop_all sessions,
      stop_all-is_over sessions enough,
      refl,
      refl,
      held,
    )
