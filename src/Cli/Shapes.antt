-- ===== src/Cli/Shapes.antt =====
-- The data of an answer has the shape that its printing expects.
use slimhub_v.Prelude.{
  ℕ, ◌≡◌, refl, sym, ap, inl, inr, Bool, true, false, Bool-cases, List, ◌||◌, Text, text_eq, Option,
  none, some, Result, ok, err, ok-injective, ok-ne-err, arith,
}
use slimhub_v.Prelude.Int.{ℤ}
use slimhub_v.Prelude.Json.{get_field}
use slimhub_v.Daemon.Arguments.{Runtime}
use slimhub_v.Daemon.Dispatch.{
  Server, Reply, stopping, device_list, session_status, sending, device_config, hub_config, message,
  estimate, raw_lines, tail, answer,
}
use slimhub_v.Logger.Store.{Line}
use slimhub_v.Daemon.Response.{reply_json}
use slimhub_v.Cli.{Namespace, Subcommand, command_send, raw_tail, is_devices, Call, call_tail}
use slimhub_v.Cli.Answers.{serve}
use slimhub_v.Cli.Print.{
  Printout, print_devices, print_other, print_sub, print_result, lines_in_answer,
}
use slimhub_v.Cli.Devices.{print_devices-device_list}

abbrev pub is_raw : Subcommand → Bool
is_raw (raw_tail address lines) = true
is_raw _ = false

abbrev pub is_tail : Call → Bool
is_tail (call_tail address lines) = true
is_tail _ = false

module _ (runtime : Runtime) where
  print_devices-raised :
      (reply : Reply) → (print_devices runtime (reply_json runtime.line_text reply)).raised ≡ none
  unfolding print_devices reply_json
  print_devices-raised (device_list devices) =
      ap (λ (p : Printout). p.raised) (print_devices-device_list runtime devices)
  print_devices-raised stopping = refl
  print_devices-raised (session_status none) = refl
  print_devices-raised (session_status (some status)) = refl
  print_devices-raised (sending r) = refl
  print_devices-raised (device_config config) = refl
  print_devices-raised (hub_config config) = refl
  print_devices-raised (message text) = refl
  print_devices-raised (estimate status) = refl
  print_devices-raised (raw_lines lines) = refl

  print_other-raised :
      (reply : Reply) → (print_other runtime (reply_json runtime.line_text reply)).raised ≡ none
  unfolding reply_json
  print_other-raised (device_list devices) = refl
  print_other-raised stopping = refl
  print_other-raised (session_status none) = refl
  print_other-raised (session_status (some status)) = refl
  print_other-raised (sending r) = refl
  print_other-raised (device_config config) = refl
  print_other-raised (hub_config config) = refl
  print_other-raised (message text) = refl
  print_other-raised (estimate status) = refl
  print_other-raised (raw_lines lines) = refl

  lines-raised :
      (r : Result (List Line)) (s : Server) (reply : Reply) (address : Option Text) (lines : ℤ)
      → (answer raw_lines s r).0 ≡ ok reply
      → (print_sub runtime (raw_tail address lines) (reply_json runtime.line_text reply)).raised
        ≡ none
  unfolding reply_json print_result get_field lines_in_answer text_eq
  lines-raised (err e) s reply address lines made = absurd (ok-ne-err _ _ (sym made))
  lines-raised (ok found) s reply address lines made = rw (sym (ok-injective _ _ made)) refl

  tail-raised :
      (now : ℕ) (call : Call) (s : Server) (reply : Reply) (address : Option Text) (lines : ℤ)
      → is_tail call ≡ true
      → (serve now call s).0 ≡ ok reply
      → (print_sub runtime (raw_tail address lines) (reply_json runtime.line_text reply)).raised
        ≡ none
  unfolding tail
  tail-raised now (call_tail a n) s reply address lines tails made =
      lines-raised _ s reply address lines made
  tail-raised now _ s reply address lines tails made = absurd (ground arith)

  sub-raised :
      (now : ℕ) (subcommand : Subcommand) (call : Call) (s : Server) (reply : Reply)
      → is_raw subcommand ≡ is_tail call
      → (serve now call s).0 ≡ ok reply
      → (print_sub runtime subcommand (reply_json runtime.line_text reply)).raised ≡ none
  sub-raised now (raw_tail address lines) call s reply same made =
      tail-raised now call s reply address lines (sym same) made
  sub-raised now (command_send address command) call s reply same made = refl
  sub-raised now _ call s reply same made = print_other-raised reply

  -- If `raw tail` is the subcommand exactly when the call is its call, as without another flag beside
  -- a subcommand, then what the daemon answers to the call is printed without an error.
  pub print_result-raised :
      (now : ℕ) (args : Namespace) (call : Call) (s : Server) (reply : Reply)
      → is_raw args.subcommand ≡ is_tail call
      → (serve now call s).0 ≡ ok reply
      → (print_result runtime args (reply_json runtime.line_text reply)).raised ≡ none
  unfolding print_result
  print_result-raised now args call s reply same made =
      elim (Bool-cases (args.list_flag || is_devices args.subcommand)) [
        | inl devices ↦ rw devices (print_devices-raised reply)
        | inr other ↦ rw other (sub-raised now args.subcommand call s reply same made)
      ]
