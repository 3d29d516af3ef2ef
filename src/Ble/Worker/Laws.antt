-- ===== src/Ble/Worker/Laws.antt =====
-- What the command worker gives to the client.
use slimhub_v.Prelude.{
  ℕ, suc, ◌≡◌, refl, ap, ◌∙◌, List, [], ◌∷◌, ◌++◌, map, Text, Bytes, Option, Result, ok, err, Error,
}
use slimhub_v.Protocol.Frame.{build_command_frame}
use slimhub_v.Events.{CommandEvent}
use slimhub_v.Ble.Worker.{write_frame, command_worker}

abbrev pub framed : CommandEvent → Result Bytes
framed command = build_command_frame command.address command.command

-- The frames among the results, in their order.
abbrev pub frames_of : List (Result Bytes) → List Bytes
frames_of [] = []
frames_of (err e ∷ results) = frames_of results
frames_of (ok frame ∷ results) = frame ∷ frames_of results

module _ (write_gatt_char : ℕ → Bytes → Option Text) (message : Error → Text) where
  write_frame-append :
      (call : ℕ) (last_error : Option Text) (r : Result Bytes) (results : List (Result Bytes))
      → (write_frame write_gatt_char message call last_error r).0 ++ frames_of results
        ≡ frames_of (r ∷ results)
  write_frame-append call last_error (err e) results = refl
  write_frame-append call last_error (ok frame) results = refl

  -- Whatever calls of the client fail, the worker gives it the frames of the commands that can be framed,
  -- one for each and in their order: a command that cannot be framed stops no other.
  pub command_worker_lem :
      (call : ℕ) (last_error : Option Text) (commands : List CommandEvent)
      → (command_worker write_gatt_char message call last_error commands).0
        ≡ frames_of (map framed commands)
  unfolding command_worker
  command_worker_lem call last_error [] = refl
  command_worker_lem call last_error (command ∷ commands) =
      let error = (write_frame write_gatt_char message call last_error (framed command)).1 in
      ap
        (λ (fs : List Bytes).
          (write_frame write_gatt_char message call last_error (framed command)).0 ++ fs)
        (command_worker_lem (suc call) error commands)
      ∙ write_frame-append call last_error (framed command) (map framed commands)
