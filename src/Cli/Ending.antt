-- ===== src/Cli/Ending.antt =====
-- A whole run of the command line against a daemon that listens.
use slimhub_v.Prelude.{[], codes, Result, ok, err, failed_request}
use slimhub_v.Events.{text_or}
use slimhub_v.Daemon.Arguments.{Runtime}
use slimhub_v.Daemon.Dispatch.{Reply}
use slimhub_v.Daemon.Response.{reply_json}
use slimhub_v.Cli.{Namespace}
use slimhub_v.Cli.Print.{print_result}
use slimhub_v.Cli.Run.{Outcome, printed, error_printed}

-- The lines of an answer, or the error with its text.
abbrev pub ending : Runtime → Namespace → Result Reply → Outcome
ending runtime args (ok reply) =
    printed (print_result runtime args (reply_json runtime.line_text reply)).lines
ending runtime args (err e) =
    error_printed []
      (failed_request (text_or (runtime.error_text e) (codes "daemon request failed")))
