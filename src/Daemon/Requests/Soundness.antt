-- ===== src/Daemon/Requests/Soundness.antt =====
-- A request of the command line keeps what the registry leads to, and a sound daemon sound, with
-- its log and its estimator.
use slimhub_v.Prelude.{
  ℕ, ◌≡◌, refl, sym, ap, ◌∙◌, Bool, true, false, List, [], ◌∷◌, Text, Option, none, some, ok,
  ok-injective, >>=-eq-ok,
}
use slimhub_v.Protocol.Mac.{normalize_mac}
use slimhub_v.Events.{CommandEvent}
use slimhub_v.Protocol.Command.{validate_command}
use slimhub_v.Config.{DeviceConfig, load}
use slimhub_v.Ble.Registry.{get}
use slimhub_v.Ble.Central.{BleCentral, send_command, deliver}
use slimhub_v.Daemon.{SlimHubDaemon}
use slimhub_v.Daemon.Frames.{IsSound, IsKept}
use slimhub_v.Daemon.Requests.{
  Sending, command_device, send_to, accept_sent, apply_all, rename_found,
}

registry-rename_found :
    (name : Text) (c : BleCentral) (found : Option ℕ)
    → (rename_found name c found).registry ≡ c.registry
registry-rename_found name c none = refl
registry-rename_found name c (some session) = refl

pub apply_all-registry :
    (configs : List DeviceConfig) (c c' : BleCentral)
    → apply_all configs c ≡ ok c'
    → c'.registry ≡ c.registry
unfolding apply_all
apply_all-registry [] c c' e = ap (λ (b : BleCentral). b.registry) (sym (ok-injective _ _ e))
apply_all-registry (config ∷ configs) c c' e =
    let (found, _, e1) = >>=-eq-ok (get c.registry config.address) _ e in
    apply_all-registry configs (rename_found config.name c found) c' e1
    ∙ registry-rename_found config.name c found

registry-deliver :
    (command : CommandEvent) (c : BleCentral) (found : Option ℕ)
    → (deliver command c found).1.registry ≡ c.registry
registry-deliver command c none = refl
registry-deliver command c (some session) = refl

registry-send_command :
    (command : CommandEvent) (c : BleCentral) (r : Bool × BleCentral)
    → send_command command c ≡ ok r
    → r.1.registry ≡ c.registry
unfolding send_command
registry-send_command command c r e =
    let (found, _, e1) = >>=-eq-ok (get c.registry command.address) _ e in
    ap (λ (p : Bool × BleCentral). p.1.registry) (sym (ok-injective _ _ e1))
    ∙ registry-deliver command c found

accept_sent-IsKept :
    (address command : Text) (session : ℕ) (sent : Bool) (c : BleCentral) (a : Sending)
    (d d' : SlimHubDaemon)
    → IsSound d
    → c.registry ≡ d.central.registry
    → accept_sent address command session sent c d ≡ ok (a, d')
    → IsKept d d'
accept_sent-IsKept address command session false c a d d' sound same e = cc
accept_sent-IsKept address command session true c a d d' sound same e =
    rw (sym (ap (λ (p : Sending × SlimHubDaemon). p.1) (ok-injective _ _ e))) (record {
      sound = record {
        consistent = sound.consistent;
        tracking = sound.tracking;
        routed = rw same sound.routed;
      };
      same_estimator = refl;
      same_log = refl;
    })

send_to-IsKept :
    (address command : Text) (session : Option ℕ) (a : Sending) (d d' : SlimHubDaemon)
    → IsSound d
    → send_to address command session d ≡ ok (a, d')
    → IsKept d d'
send_to-IsKept address command none a d d' sound e = cc
send_to-IsKept address command (some session) a d d' sound e =
    let (config, _, e1) = >>=-eq-ok (load d.files address) _ e in
    let event : CommandEvent = record {
      address = address;
      command = command;
      location = config.location;
    } in
    let ((sent, c), e2, e3) = >>=-eq-ok (send_command event d.central) _ e1 in
    accept_sent-IsKept address command session sent c a d d' sound
      (registry-send_command event d.central (sent, c) e2) e3

pub command_device-IsKept :
    (address command : Option Text) (a : Sending) (d d' : SlimHubDaemon)
    → IsSound d
    → command_device address command d ≡ ok (a, d')
    → IsKept d d'
unfolding command_device
command_device-IsKept none command a d d' sound e = cc
command_device-IsKept (some []) command a d d' sound e = cc
command_device-IsKept (some (x ∷ address)) none a d d' sound e = cc
command_device-IsKept (some (x ∷ address)) (some command) a d d' sound e =
    let (n, _, e1) = >>=-eq-ok (normalize_mac (x ∷ address)) _ e in
    let (valid, _, e2) = >>=-eq-ok (validate_command command) _ e1 in
    let (session, _, e3) = >>=-eq-ok (get d.central.registry n) _ e2 in
    send_to-IsKept n valid session a d d' sound e3
