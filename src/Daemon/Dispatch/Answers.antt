-- ===== src/Daemon/Dispatch/Answers.antt =====
-- The state that an answer leaves, whatever a client sends.
use slimhub_v.Prelude.{true, ℕ, ◌≡◌, refl, List, [], ◌∷◌, Bytes, Error, Result, err}
use slimhub_v.Daemon.Frames.{IsSound, IsKept}
use slimhub_v.Daemon.Arguments.{Runtime}
use slimhub_v.Daemon.Dispatch.{Server, Reply, is_encodable_request, handle_client, handle_clients}
use slimhub_v.Daemon.Dispatch.Keeps.{Keeps, refused, answered, as_it_is, handle_client-Keeps}

-- Whatever lines clients send to a sound daemon, it stays sound.
pub handle_clients-IsSound :
    (runtime : Runtime) (lines : List (ℕ × Bytes)) (s : Server)
    → IsSound s.daemon
    → IsSound (handle_clients runtime lines s).daemon
unfolding handle_clients
handle_clients-IsSound runtime [] s sound = sound
handle_clients-IsSound runtime ((now, line) ∷ lines) s sound =
    handle_clients-IsSound runtime lines (handle_client runtime now line s).1
      (left (handle_client-Keeps s sound runtime now line))
  where
    left : {out : Result Reply × Server} → Keeps s out → IsSound out.1.daemon
    left (refused e) = sound
    left (answered reply s' h) = h.sound

-- No line of a client changes the log or the estimator of a sound daemon.
pub handle_client-IsKept :
    (runtime : Runtime) (now : ℕ) (line : Bytes) (s : Server)
    → IsSound s.daemon
    → IsKept s.daemon (handle_client runtime now line s).1.daemon
handle_client-IsKept runtime now line s sound = left (handle_client-Keeps s sound runtime now line)
  where
    left : {out : Result Reply × Server} → Keeps s out → IsKept s.daemon out.1.daemon
    left (refused e) = as_it_is s sound
    left (answered reply s' h) = h

-- A line whose texts can all be encoded, and that a sound daemon refuses, changes nothing: not its
-- files, its sessions and their queues, its estimator, nor the hub's config.
pub handle_client-err :
    (runtime : Runtime) (now : ℕ) (line : Bytes) (s : Server) (e : Error)
    → IsSound s.daemon
    → is_encodable_request (runtime.loads line) ≡ true
    → (handle_client runtime now line s).0 ≡ err e
    → (handle_client runtime now line s).1 ≡ s
handle_client-err runtime now line s e sound encodes =
    left (handle_client-Keeps s sound runtime now line)
  where
    left : {out : Result Reply × Server} → Keeps s out → out.0 ≡ err e → out.1 ≡ s
    left (refused e') h = refl
    left (answered reply s' sound') h = cc
