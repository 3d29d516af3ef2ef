-- ===== src/Daemon/Reach.antt =====
-- The states that a server reaches, by lines of clients, scans and frames in any order. The tasks of the
-- daemon give way to each other only where they wait, so each of these is one step.
use slimhub_v.Prelude.{
  Bool, Option, none, some, is_encodable, true, ℕ, ◌≡◌, sym, ap, ◌∙◌, List, [], ◌∷◌, All, IsByte,
  Text, Bytes, Error, Result, ok, err, >>=-eq-ok, ok-injective,
}
use slimhub_v.Protocol.Mac.{normalize_mac}
use slimhub_v.Protocol.Frame.{ParsedFrame, parse_frame}
use slimhub_v.Events.{CommandEvent}
use slimhub_v.Ble.Registry.{register_alias}
use slimhub_v.Daemon.{SlimHubDaemon, handle_frame}
use slimhub_v.Daemon.Frames.{IsSound, handle_frame-Handled}
use slimhub_v.Daemon.Arguments.{Runtime}
use slimhub_v.Daemon.Dispatch.{
  Server, with_daemon, is_encodable_request, handle_client, handle_clients,
}
use slimhub_v.Daemon.Dispatch.Answers.{handle_clients-IsSound}
use slimhub_v.Daemon.Scan.{Advertised, scan_round, scan_loop}
use slimhub_v.Daemon.Scan.Found.{scan_loop-IsSound}

abbrev name_encodes : Option Text → Bool
name_encodes none = true
name_encodes (some name) = is_encodable name

-- The names that the adapter finds can be encoded, as BlueZ gives them in UTF-8.
abbrev pub AreEncodable : Result (List Advertised) → Type 0
AreEncodable (err e) = Unit
AreEncodable (ok devices) =
    All
      (λ (a : Advertised). (name_encodes a.device_name ≡ true) × (name_encodes a.local_name ≡ true))
      devices

-- The texts of a client's request can be encoded, and so can the names that the adapter finds. A frame comes from bytes that parse; a session whose address is refused changes nothing.
pub data Step (runtime : Runtime) : Server → Server → Type 0 where
  client :
      (now : ℕ) (line : Bytes) (s : Server)
      → is_encodable_request (runtime.loads line) ≡ true
      → Step runtime s (handle_client runtime now line s).1
  scan :
      (name : Text) (now : ℕ) (found : Result (List Advertised)) (s : Server)
      → AreEncodable found
      → Step runtime s (with_daemon s (scan_round name now found s.daemon))
  frame :
      (now : ℕ) (source_address : Text) (bytes : Bytes) (parsed : ParsedFrame)
      (sent : List CommandEvent) (d : SlimHubDaemon) (s : Server)
      → All IsByte bytes
      → parse_frame bytes ≡ ok parsed
      → handle_frame now source_address parsed s.daemon ≡ ok (sent, d)
      → Step runtime s (with_daemon s d)
  refused :
      (source_address : Text) (e : Error) (s : Server)
      → normalize_mac source_address ≡ err e
      → Step runtime s s

pub data Reaches (runtime : Runtime) (s : Server) : Server → Type 0 where
  here : Reaches runtime s s
  after : (t u : Server) → Reaches runtime s t → Step runtime t u → Reaches runtime s u

source_accepted :
    (now : ℕ) (source_address : Text) (parsed : ParsedFrame) (d : SlimHubDaemon)
    (r : List CommandEvent × SlimHubDaemon)
    → handle_frame now source_address parsed d ≡ ok r
    → (n : Text) × (normalize_mac source_address ≡ ok n)
unfolding handle_frame register_alias
source_accepted now source_address parsed d r e =
    let (registry, made, _) =
      >>=-eq-ok (register_alias d.central.registry parsed.mac source_address) _ e in
    let (a, _, rest) = >>=-eq-ok (normalize_mac parsed.mac) _ made in
    let (n, norm, _) = >>=-eq-ok (normalize_mac source_address) _ rest in (n, norm)

pub Step-IsSound :
    (runtime : Runtime) (s u : Server) → Step runtime s u → IsSound s.daemon → IsSound u.daemon
unfolding handle_clients scan_loop
Step-IsSound runtime _ _ (client now line s encodes) sound =
    handle_clients-IsSound runtime ((now, line) ∷ []) s sound
Step-IsSound runtime _ _ (scan name now found s encodes) sound =
    scan_loop-IsSound name ((now, found) ∷ []) s.daemon sound
Step-IsSound runtime _ _ (refused source_address e s norm) sound = sound
Step-IsSound runtime _ _ (frame now source_address bytes parsed sent d s below read handled) sound =
    let (n, norm) = source_accepted now source_address parsed s.daemon (sent, d) handled in
    let (out, d', e, left) =
      handle_frame-Handled now source_address n bytes parsed s.daemon sound below read norm in
    let same : d' ≡ d =
      ap (λ (r : List CommandEvent × SlimHubDaemon). r.1) (ok-injective _ _ (sym e ∙ handled)) in
    rw (sym same) left.sound

-- Whatever a server goes through, by lines of clients with texts that can be encoded, scans and frames in
-- any order: if its daemon was
-- sound, it is, and a frame of bytes that parse, from a session with an accepted address, is handled
-- without an error.
pub Reaches-IsSound :
    (runtime : Runtime) (s u : Server) (now : ℕ) (source_address n : Text) (bytes : Bytes)
    (parsed : ParsedFrame)
    → IsSound s.daemon
    → Reaches runtime s u
    → All IsByte bytes
    → parse_frame bytes ≡ ok parsed
    → normalize_mac source_address ≡ ok n
    → IsSound u.daemon
      × (sent : List CommandEvent) × (d : SlimHubDaemon) × (handle_frame now source_address parsed
            u.daemon
          ≡ ok (sent, d))
Reaches-IsSound runtime s u now source_address n bytes parsed sound path below read norm =
    let there = reached u path in
    let (sent, d, e, _) =
      handle_frame-Handled now source_address n bytes parsed u.daemon there below read norm in
    (there, sent, d, e)
  where
    reached : (t : Server) → Reaches runtime s t → IsSound t.daemon
    reached _ here = sound
    reached _ (after t v before step) = Step-IsSound runtime t v step (reached t before)
