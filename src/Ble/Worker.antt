-- ===== src/Ble/Worker.antt =====
-- `_command_worker` of slimhub/ble/device_session.py, over the commands that it takes from the queue
-- while the session is not stopped. What `write_gatt_char` does is a parameter: for each call, by its
-- number, the text of the exception that it raises, if any. So is the text of our own exceptions.
pub mod Laws
use slimhub_v.Prelude.{
  ℕ, suc, List, [], ◌∷◌, ◌++◌, Text, Bytes, Option, none, some, Result, ok, err, Error,
}
use slimhub_v.Protocol.Frame.{build_command_frame}
use slimhub_v.Events.{CommandEvent}

-- `last_error` after a call.
abbrev pub after_call : Option Text → Option Text → Option Text
after_call last_error none = last_error
after_call last_error (some message) = some message

module _ (write_gatt_char : ℕ → Bytes → Option Text) (message : Error → Text) where
  -- The body of the loop after the command is framed: the frames given to the client, and `last_error`.
  abbrev pub write_frame : ℕ → Option Text → Result Bytes → List Bytes × Option Text
  write_frame call last_error (err e) = ([], some (message e))
  write_frame call last_error (ok frame) =
      (frame ∷ [], after_call last_error (write_gatt_char call frame))

  unfoldable pub command_worker : ℕ → Option Text → List CommandEvent → List Bytes × Option Text
  command_worker call last_error [] = ([], last_error)
  command_worker call last_error (command ∷ commands) =
      let (frames, error) =
        write_frame call last_error (build_command_frame command.address command.command) in
      let (more, last) = command_worker (suc call) error commands in (frames ++ more, last)
