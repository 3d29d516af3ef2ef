-- ===== src/Cli/Run.antt =====
-- `run_cli` of slimhub/cli/app.py. What the daemon does once it runs is not part of it; a keyboard
-- interrupt is left out.
use slimhub_v.Prelude.{
  ℕ, ◌≡◌, refl, sym, ◌∙◌, Bool, ap, true, false, if◌then◌else◌, List, [], Text, Option, none, some,
  Error, Result, ok, err, not_running, connection_refused, inl, inr, Bool-cases,
}
use slimhub_v.Daemon.Arguments.{Runtime}
use slimhub_v.Prelude.Json.{Json}
use slimhub_v.Daemon.Dispatch.{Server, Reply, hub_config_set}
use slimhub_v.Daemon.Response.{reply_json}
use slimhub_v.Cli.{
  setup_logging, RunOptions, Namespace, Hub, has_action, is_run_command, with_server, send_request,
  send_args,
}
use slimhub_v.Daemon.Socket.{open_connection}
use slimhub_v.Cli.Print.{Printed, print_result}
use slimhub_v.Cli.Answers.{chosen-ok}

-- The error is printed after the lines that were printed before it.
pub data Outcome : Type 0 where
  help_printed server_not_running : Outcome
  daemon_run : RunOptions → Outcome
  printed : List Printed → Outcome
  error_printed : List Printed → Error → Outcome

abbrev pub exit_code : Outcome → ℕ
exit_code (error_printed lines e) = 1
exit_code _ = 0

abbrev raised_in : Error → Outcome
raised_in not_running = server_not_running
raised_in e = error_printed [] e

abbrev pub shown : List Printed → Option Error → Outcome
shown lines none = printed lines
shown lines (some e) = error_printed lines e

abbrev pub print_answer : Runtime → Namespace → Result Json → Outcome
print_answer runtime args (err e) = raised_in e
print_answer runtime args (ok answer) =
    let p = print_result runtime args answer in shown p.lines p.raised

abbrev hub_answer : Runtime → Hub → Result Reply × Server → Result Json × Hub
hub_answer runtime hub (err e, s) = (err e, with_server hub s)
hub_answer runtime hub (ok reply, s) = (ok (reply_json runtime.line_text reply), with_server hub s)

-- `data`: of the hub's config, or of the call.
unfoldable pub data_of : Runtime → ℕ → Namespace → Option (Text × Text) → Hub → Result Json × Hub
unfolding send_args reply_json
data_of runtime now args (some (key, value)) hub =
    hub_answer runtime hub (hub_config_set runtime.own_mac key value hub.server)
data_of runtime now args none hub = send_args runtime now args hub

unfoldable pub run_cli : Runtime → ℕ → Namespace → Hub → Outcome × Hub
unfolding has_action is_run_command data_of print_result
run_cli runtime now args hub =
    if has_action args
    then if is_run_command args
      then (daemon_run args.options, setup_logging hub)
      else (let (r, hub') = data_of runtime now args args.hubconfig (setup_logging hub) in
          (print_answer runtime args r, hub'))
    else (help_printed, hub)

-- What is printed where nothing listens: whether the socket's file is there.
abbrev pub unreachable : Bool → Outcome
unreachable true = error_printed [] connection_refused
unreachable false = server_not_running

-- Where nothing listens, a command line with an action that is neither `run` nor the hub's config makes
-- the directories and the log file, and changes nothing else. Without the socket's file it says that the server is not running, and exits with 0; when a
-- daemon has left its file, it prints an error and exits with 1.
pub run_cli_offline :
    (runtime : Runtime) (now : ℕ) (args : Namespace) (hub : Hub)
    → hub.socket.server ≡ false
    → has_action args ≡ true
    → is_run_command args ≡ false
    → args.hubconfig ≡ none
    → (run_cli runtime now args hub ≡ (unreachable hub.socket.file, setup_logging hub))
      × (exit_code (run_cli runtime now args hub).0 ≡ (if hub.socket.file then 1 else 0))
unfolding run_cli data_of send_args send_request open_connection
run_cli_offline runtime now args hub off acts runs no_config =
    let (call, e) = chosen-ok args acts runs no_config in
    let refused : hub.socket.file ≡ true
        → run_cli runtime now args hub ≡ (unreachable true, setup_logging hub) =
      λ file. rw (acts, runs, no_config, e, file, off) refl in
    let gone : hub.socket.file ≡ false
        → run_cli runtime now args hub ≡ (unreachable false, setup_logging hub) =
      λ absent. rw (acts, runs, no_config, e, absent) refl in
    let ran : run_cli runtime now args hub ≡ (unreachable hub.socket.file, setup_logging hub) =
      elim (Bool-cases hub.socket.file) [
        | inl file ↦ refused file ∙ ap (λ (b : Bool). (unreachable b, setup_logging hub)) (sym file)
        | inr absent ↦
            gone absent ∙ ap (λ (b : Bool). (unreachable b, setup_logging hub)) (sym absent)
      ] in
    (ran, ap (λ (r : Outcome × Hub). exit_code r.0) ran ∙ codes_of hub.socket.file)
  where
    codes_of : (b : Bool) → exit_code (unreachable b) ≡ (if b then 1 else 0)
    codes_of true = refl
    codes_of false = refl
