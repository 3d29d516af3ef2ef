-- ===== src/Daemon/Dispatch/Keeps.antt =====
-- Every branch of `dispatch` from a sound daemon: it refuses and changes nothing, or answers and leaves a
-- sound daemon with its log and its estimator.
use slimhub_v.Prelude.{
  ℕ, ◌≡◌, refl, sym, inl, inr, Bool, true, false, if◌then◌else◌, Text, Bytes, codes, Option, Error,
  Result, ok, err, ok-injective, >>=-eq-ok, Result-cases, require, bad_field, unknown_command,
}
use slimhub_v.Prelude.Json.{
  get_field, Json, null, boolean, number, real, string, array, object, Fields,
}
use slimhub_v.Protocol.Mac.{normalize_mac}
use slimhub_v.Config.Hub.{hub_set_field}
use slimhub_v.Config.{
  DeviceConfig, Files, default_device_type, load, set_field, set_attribute, save, is_field,
  list_all,
}
use slimhub_v.Config.Updates.{save-IsConsistent, ensure_lem}
use slimhub_v.Daemon.{SlimHubDaemon, connect_address}
use slimhub_v.Daemon.Frames.{IsSound, IsKept}
use slimhub_v.Daemon.Sessions.{connect_address_lem}
use slimhub_v.Prelude.Int.{ℤ}
use slimhub_v.Daemon.Report.{tail_raw}
use slimhub_v.Daemon.Requests.{command_device, apply_all, apply_config, unsupported_device_command}
use slimhub_v.Daemon.Requests.Soundness.{apply_all-registry, command_device-IsKept}
use slimhub_v.Daemon.Arguments.{Runtime, str_if_true, args_of}
use slimhub_v.Daemon.Dispatch.{
  Server, Reply, session_status, message, is_command, request_stop, answer, answer_with, with_args,
  connect, config_set, config_apply, hub_config_set, send, unsupported, perform, dispatch,
  handle_client, left_by_connect, tail, raw_lines,
}

-- An outcome at a state: a refusal leaves the state as it was, an answer leaves a sound daemon,
-- with its log and its estimator.
pub data Keeps (s : Server) : Result Reply × Server → Type 0 where
  refused : (e : Error) → Keeps s (err e, s)
  answered : (reply : Reply) (s' : Server) → IsKept s.daemon s'.daemon → Keeps s (ok reply, s')

if-Keeps :
    (test : Bool) (s : Server) (a b : Result Reply × Server)
    → Keeps s a
    → Keeps s b
    → Keeps s (if test then a else b)
if-Keeps true s a b ka kb = ka
if-Keeps false s a b ka kb = kb

module _ (s : Server) (sound : IsSound s.daemon) where
  pub as_it_is : IsKept s.daemon s.daemon
  as_it_is = record { sound = sound; same_estimator = refl; same_log = refl }

  answer-Keeps {ℓ} : {A : Type ℓ} (reply : A → Reply) (r : Result A) → Keeps s (answer reply s r)
  answer-Keeps reply (err e) = refused e
  answer-Keeps reply (ok a) = answered (reply a) s as_it_is

  with_args-Keeps {ℓ} :
      {A : Type ℓ} (r : Result A) (next : A → Result Reply × Server)
      → ((a : A) → Keeps s (next a))
      → Keeps s (with_args s r next)
  with_args-Keeps (err e) next h = refused e
  with_args-Keeps (ok a) next h = h a

  answer_with-Keeps {ℓ κ} :
      {A : Type ℓ} {B : Type κ} (reply : A → Reply) (put : B → Server) (r : Result (A × B))
      → ((a : A) (b : B) → r ≡ ok (a, b) → IsKept s.daemon (put b).daemon)
      → Keeps s (answer_with reply put s r)
  answer_with-Keeps reply put (err e) h = refused e
  answer_with-Keeps reply put (ok (a, b)) h = answered (reply a) (put b) (h a b refl)

  config_set-Keeps : (address field value : Text) → Keeps s (config_set address field value s)
  unfolding config_set set_field
  config_set-Keeps address field value =
      answer_with-Keeps _ _ (set_field s.daemon.files address field value) λ saved files e. record {
        sound = record {
          consistent = kept saved files e;
          tracking = sound.tracking;
          routed = sound.routed;
        };
        same_estimator = refl;
        same_log = refl;
      }
    where
      kept :
          (saved : DeviceConfig) (files : Files)
          → set_field s.daemon.files address field value ≡ ok (saved, files)
          → slimhub_v.Config.Updates.IsConsistent files
      kept saved files e =
          let (_, _, e1) = >>=-eq-ok (require (is_field field) bad_field) _ e in
          let (config, _, e2) = >>=-eq-ok (load s.daemon.files address) _ e1 in
          save-IsConsistent s.daemon.files files (set_attribute field value config) saved
            sound.consistent e2

  hub_config_set-Keeps :
      (own_mac field value : Text) → Keeps s (hub_config_set own_mac field value s)
  unfolding hub_config_set
  hub_config_set-Keeps own_mac field value =
      answer_with-Keeps _ _ (hub_set_field own_mac s.hub_file field value) λ config file e. as_it_is

  connect-Keeps : (now : ℕ) (address : Text) → Keeps s (connect now address s)
  unfolding connect left_by_connect connect_address
  connect-Keeps now address = elim (Result-cases (normalize_mac address)) [
    | inl (n, norm) ↦
        let (st, d, _, e, sound', _, same_log, same_estimator) =
          connect_address_lem now address n s.daemon sound norm in
        rw e (
          answered (session_status st) (record s { daemon = d })
            (record { sound = sound'; same_estimator = same_estimator; same_log = same_log }))
    | inr (e, failed) ↦ rw failed (refused e)
  ]

  config_apply-Keeps : Keeps s (config_apply s)
  unfolding config_apply apply_config
  config_apply-Keeps = elim (Result-cases (apply_config s.daemon)) [
    | inl (d, e) ↦ rw e (answered _ _ (applied d e))
    | inr (e, failed) ↦ rw failed (refused e)
  ]
    where
      applied : (d : SlimHubDaemon) → apply_config s.daemon ≡ ok d → IsKept s.daemon d
      applied d e =
          let (configs, _, e1) = >>=-eq-ok (list_all s.daemon.files) _ e in
          let (central, e2, e3) = >>=-eq-ok (apply_all configs s.daemon.central) _ e1 in
          rw (sym (ok-injective _ _ e3)) (record {
            sound = record {
              consistent = sound.consistent;
              tracking = sound.tracking;
              routed = rw (apply_all-registry configs s.daemon.central central e2) sound.routed;
            };
            same_estimator = refl;
            same_log = refl;
          })

  send-Keeps : (address command : Option Text) → Keeps s (send address command s)
  unfolding send
  send-Keeps address command =
      answer_with-Keeps _ _ (command_device address command s.daemon)
        λ a d e. command_device-IsKept address command a s.daemon d sound e

  unsupported-Keeps : (address name detail : Text) → Keeps s (unsupported address name detail s)
  unfolding unsupported
  unsupported-Keeps address name detail =
      answer-Keeps message (unsupported_device_command address name detail s.daemon)

  tail-Keeps : (address : Option Text) (n : ℤ) → Keeps s (tail address s n)
  unfolding tail
  tail-Keeps address n = answer-Keeps raw_lines (tail_raw address n s.dir)

  pub perform-Keeps :
      (runtime : Runtime) (now : ℕ) (command : Option Json) (args : Fields)
      → Keeps s (perform runtime now command args s)
  unfolding perform request_stop
  perform-Keeps runtime now command args =
      let is = is_command command in
      let branch = λ (name : Text). if-Keeps (is name) s in
      branch (codes "stop") _ _ (answered _ _ as_it_is) (
        branch (codes "devices") _ _ (answer-Keeps _ _) (
          branch (codes "connect") _ _ (with_args-Keeps _ _ (connect-Keeps now)) (
            branch (codes "command.send") _ _ (send-Keeps _ _) (
              branch (codes "config.set") _ _
                (with_args-Keeps _ _ (λ (a, (f, v)). config_set-Keeps a f v))
                (branch (codes "config.apply") _ _ config_apply-Keeps (
                  branch (codes "hub.config.set") _ _
                    (with_args-Keeps _ _ (λ (f, v). hub_config_set-Keeps runtime.own_mac f v))
                    (branch (codes "service") _ _ (answer-Keeps _ _) (
                      branch (codes "reset") _ _ (unsupported-Keeps _ _ _) (
                        branch (codes "model") _ _ (unsupported-Keeps _ _ _) (
                          branch (codes "feature") _ _ (unsupported-Keeps _ _ _) (
                            branch (codes "file") _ _ (unsupported-Keeps _ _ _) (
                              branch (codes "unitspace.status") _ _ (answered _ _ as_it_is) (
                                branch (codes "raw.tail") _ _
                                  (with_args-Keeps _ _ (
                                    tail-Keeps
                                      (str_if_true runtime (get_field (codes "address") args))))
                                  (refused unknown_command))))))))))))))

  pub dispatch-Keeps :
      (runtime : Runtime) (now : ℕ) (request : Json) → Keeps s (dispatch runtime now request s)
  unfolding dispatch
  dispatch-Keeps runtime now (object request) =
      with_args-Keeps (args_of (get_field (codes "args") request)) _
        λ args. perform-Keeps runtime now (get_field (codes "command") request) args
  dispatch-Keeps runtime now null = refused _
  dispatch-Keeps runtime now (boolean b) = refused _
  dispatch-Keeps runtime now (number n) = refused _
  dispatch-Keeps runtime now (real m e) = refused _
  dispatch-Keeps runtime now (string text) = refused _
  dispatch-Keeps runtime now (array items) = refused _

  pub handle_client-Keeps :
      (runtime : Runtime) (now : ℕ) (line : Bytes) → Keeps s (handle_client runtime now line s)
  unfolding handle_client
  handle_client-Keeps runtime now line =
      with_args-Keeps _ _ λ request. dispatch-Keeps runtime now request
