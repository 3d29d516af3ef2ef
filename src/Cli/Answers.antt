-- ===== src/Cli/Answers.antt =====
-- What a call of the command line becomes at the daemon.
use slimhub_v.Prelude.{
  ◌≤◌, length, ℕ, ◌≡◌, refl, ◌⊎◌, true, false, [], ◌∷◌, Text, Bytes, codes, Option, err,
  failed_request, none, some, Result, Result-cases, text_eq, inl, inr, ok, arith,
}
use slimhub_v.Prelude.Json.{Json, object, get_field}
use slimhub_v.Events.{text_or}
use slimhub_v.Daemon.Socket.{stream_limit, read_line_ok, served, open_connection}
use slimhub_v.Daemon.Response.{reply_json, response_of, respond}
use slimhub_v.Daemon.Report.{devices_payload}
use slimhub_v.Daemon.Requests.{service_command}
use slimhub_v.Daemon.Arguments.{Runtime}
use slimhub_v.Daemon.Dispatch.{
  Server, Reply, stopping, device_list, message, estimate, answer, request_stop, connect,
  config_set, config_apply, send, unsupported, tail, perform, dispatch, handle_client,
}
use slimhub_v.Cli.{
  Namespace, Call, call_stop, call_devices, call_apply, call_unitspace, call_config, call_service,
  call_reset, call_connect, call_model, call_feature, call_send, call_file, call_tail, has_action,
  is_run_command, chosen, request_of, body_of, encode_request, Hub, received, with_server,
  send_request, decode_response,
}

abbrev non_empty : Option Text → Option Text
non_empty none = none
non_empty (some []) = none
non_empty (some (x ∷ text)) = some (x ∷ text)

-- The operation of the daemon that a call stands for.
abbrev pub serve : ℕ → Call → Server → Result Reply × Server
serve now call_stop s = (ok stopping, request_stop s)
serve now call_devices s = answer device_list s (devices_payload s.daemon)
serve now call_apply s = config_apply s
serve now call_unitspace s = (ok (estimate s.daemon.estimator), s)
serve now (call_config address name value) s = config_set address name value s
serve now (call_service address action service characteristic) s =
    answer message s (service_command address action service (some characteristic) s.daemon)
serve now (call_reset address) s = unsupported address (codes "Reset") [] s
serve now (call_connect address) s = connect now address s
serve now (call_model address command) s = unsupported address (codes "Model") command s
serve now (call_feature address command) s =
    unsupported address (codes "Feature collection") command s
serve now (call_send address command) s = send (some address) (some command) s
serve now (call_file address file_path save_path) s =
    unsupported address (codes "File transfer") file_path s
serve now (call_tail address lines) s = tail (non_empty address) s lines

text_cases : (text : Text) → (text ≡ []) ⊎ ((c : ℕ) × (rest : Text) × (text ≡ c ∷ rest))
text_cases [] = inl refl
text_cases (c ∷ rest) = inr (c, rest, refl)

dispatch_call :
    (runtime : Runtime) (now : ℕ) (call : Call) (s : Server)
    → dispatch runtime now (body_of (request_of call)) s ≡ serve now call s
unfolding dispatch perform get_field text_eq
dispatch_call runtime now call_stop s = refl
dispatch_call runtime now call_devices s = refl
dispatch_call runtime now call_apply s = refl
dispatch_call runtime now call_unitspace s = refl
dispatch_call runtime now (call_config address name value) s = refl
dispatch_call runtime now (call_service address action service characteristic) s = refl
dispatch_call runtime now (call_reset address) s = refl
dispatch_call runtime now (call_connect address) s = refl
dispatch_call runtime now (call_model address command) s = refl
dispatch_call runtime now (call_feature address command) s = refl
dispatch_call runtime now (call_send address command) s = refl
dispatch_call runtime now (call_file address file_path save_path) s = refl
dispatch_call runtime now (call_tail none lines) s = refl
dispatch_call runtime now (call_tail (some []) lines) s = refl
dispatch_call runtime now (call_tail (some (x ∷ address)) lines) s = refl

-- What the command line gets of an answer: its data, or the error with its text.
abbrev pub taken : Runtime → Result Reply → Result Json
taken runtime (ok reply) = ok (reply_json runtime.line_text reply)
taken runtime (err e) =
    err (failed_request (text_or (runtime.error_text e) (codes "daemon request failed")))

received-response_of :
    (runtime : Runtime) (r : Result Reply)
    → received runtime (response_of runtime r) ≡ taken runtime r
unfolding received response_of get_field text_eq
received-response_of runtime (ok reply) = refl
received-response_of runtime (err e) = elim (text_cases (runtime.error_text e)) [
  | inl none_given ↦ rw none_given refl
  | inr (c, text, given) ↦ rw given refl
]

-- If json reads back the request and the response that it wrote, the response is not empty, and neither
-- is over the limit of a line, a call to
-- a daemon that listens is answered with the data of the operation that it stands for, or fails with the
-- text of its error: the daemon finds the command and all its arguments, with their values.
pub send_request-serve :
    (runtime : Runtime) (now : ℕ) (call : Call) (hub : Hub) (c : ℕ) (line : Bytes)
    → runtime.loads (encode_request runtime (request_of call)) ≡ ok (body_of (request_of call))
    → hub.socket ≡ served
    → runtime.dumps (object (response_of runtime (serve now call hub.server).0)) ≡ c ∷ line
    → runtime.loads (c ∷ line) ≡ ok (object (response_of runtime (serve now call hub.server).0))
    → length (encode_request runtime (request_of call)) ≤ stream_limit
    → length (c ∷ line) ≤ stream_limit
    → send_request runtime now (request_of call) hub
      ≡ (taken runtime (serve now call hub.server).0, with_server hub (serve now call hub.server).1)
unfolding send_request open_connection respond handle_client decode_response
send_request-serve runtime now call hub c line reads listens writes reads_back short fits =
    rw
      (
        listens,
        read_line_ok (encode_request runtime (request_of call)) short,
        reads,
        dispatch_call runtime now call hub.server,
        writes,
        read_line_ok (c ∷ line) fits,
        reads_back,
        received-response_of runtime (serve now call hub.server).0,
      )
      refl

-- A command line with an action that is neither `run` nor the hub's config makes a call: `_send` does
-- not reach its last line.
pub chosen-ok :
    (args : Namespace)
    → has_action args ≡ true
    → is_run_command args ≡ false
    → args.hubconfig ≡ none
    → (call : Call) × (chosen args ≡ ok call)
unfolding has_action is_run_command chosen
chosen-ok args acts runs hub = elim (Result-cases (chosen args)) [
  | inl (call, e) ↦ (call, e)
  | inr (e, failed) ↦ absurd (ground arith)
]
