-- ===== src/Daemon/Response.antt =====
-- The responses of slimhub/daemon.py as the json module gets them: the objects that `_ok` and the
-- handler of exceptions in `_handle_client` make, with the data of each answer. A time is a number of
-- microseconds, and a real number of seconds in JSON.
use slimhub_v.Prelude.{
  ℕ, Bool, true, false, List, map, Text, Bytes, codes, Option, none, some, Result, ok, err,
}
use slimhub_v.Prelude.Int.{pos}
use slimhub_v.Prelude.Json.{
  Json, null, boolean, number, real, string, array, object, Fields, nothing, field, items,
  text_or_null,
}
use slimhub_v.Unitspace.{UnitspaceStatus}
use slimhub_v.Config.{DeviceConfig}
use slimhub_v.Config.Hub.{HubConfig}
use slimhub_v.Ble.Session.{Status}
use slimhub_v.Logger.Store.{Line}
use slimhub_v.Daemon.Arguments.{Runtime}
use slimhub_v.Daemon.Report.{Device}
use slimhub_v.Daemon.Requests.{Sending}
use slimhub_v.Daemon.Dispatch.{
  Server, Reply, stopping, device_list, session_status, sending, device_config, hub_config, message,
  estimate, raw_lines, handle_client,
}

abbrev pub seconds : ℕ → Json
seconds microseconds = real (pos microseconds) 6

abbrev pub status_json : Option Status → Json
status_json none = null
status_json (some s) = object (
    field (codes "address") (string s.address) (
      field (codes "name") (string s.name) (
        field (codes "connected") (boolean s.connected) (
          field (codes "last_seen") (seconds s.last_seen) (
            field (codes "last_error") (text_or_null s.last_error) (
              field (codes "waiting_for_advertisement") (boolean s.waiting_for_advertisement)
                (field (codes "queued_commands") (number (pos s.queued_commands)) nothing)))))))

-- A field that may be missing.
unfoldable pub with_field : Text → Option Json → Fields → Fields
with_field k none fields = fields
with_field k (some v) fields = field k v fields

abbrev pub json_if {ℓ} : {A : Type ℓ} → (A → Json) → Option A → Option Json
json_if f none = none
json_if f (some a) = some (f a)

abbrev pub text_field : Text → Option Text → Fields → Fields
text_field k text fields = with_field k (json_if (λ (t : Text). string t) text) fields

-- The fields in their order: those of a session with its aliases, then those of its config; without a
-- session, the type stands where the absent device has it.
unfoldable pub device_fields : Option (List Text) → Device → Fields
unfolding with_field
device_fields (some aliases) item = field (codes "address") (string item.address) (
    field (codes "name") (string item.name) (
      field (codes "connected") (boolean item.connected) (
        field (codes "last_seen") (seconds item.last_seen) (
          field (codes "last_error") (text_or_null item.last_error) (
            with_field (codes "waiting_for_advertisement")
              (json_if (λ (b : Bool). boolean b) item.waiting_for_advertisement)
              (field (codes "queued_commands") (number (pos item.queued_commands)) (
                field (codes "aliases") (array (items (map (λ (t : Text). string t) aliases))) (
                  text_field (codes "packet_address") item.packet_address (
                    text_field (codes "configured_name") item.configured_name (
                      text_field (codes "type") item.type
                        (text_field (codes "location") item.location nothing)))))))))))
device_fields none item = field (codes "address") (string item.address) (
    field (codes "name") (string item.name) (
      text_field (codes "type") item.type (
        field (codes "connected") (boolean item.connected) (
          field (codes "last_seen") (seconds item.last_seen) (
            field (codes "last_error") (text_or_null item.last_error) (
              field (codes "queued_commands") (number (pos item.queued_commands)) (
                text_field (codes "packet_address") item.packet_address (
                  text_field (codes "configured_name") item.configured_name
                    (text_field (codes "location") item.location nothing)))))))))

unfoldable pub device_json : Device → Json
unfolding device_fields
device_json item = object (device_fields item.aliases item)

-- `config.__dict__`
abbrev pub config_json : DeviceConfig → Json
config_json c = object (
    field (codes "address") (string c.address) (
      field (codes "type") (string c.type) (
        field (codes "name") (string c.name)
          (field (codes "location") (string c.location) nothing))))

abbrev pub hub_json : HubConfig → Json
hub_json c = object (
    field (codes "address") (string c.address) (
      field (codes "type") (string c.type) (
        field (codes "owner") (text_or_null c.owner)
          (field (codes "name") (text_or_null c.name) nothing))))

abbrev sending_json : Sending → Json
sending_json r = object (
    field (codes "address") (string r.address) (
      field (codes "command") (string r.command)
        (field (codes "session") (status_json r.session) nothing)))

-- `snapshot`
abbrev pub snapshot : UnitspaceStatus → Json
snapshot status = object (
    field (codes "last_address") (text_or_null status.last_address) (
      field (codes "last_location") (text_or_null status.last_location)
        (field (codes "last_timestamp") (seconds status.last_timestamp) nothing)))

-- The data that `_ok` is given.
unfoldable pub reply_json : (Line → Text) → Reply → Json
unfolding items
reply_json line_text stopping = object (field (codes "stopping") (boolean true) nothing)
reply_json line_text (device_list devices) = array (items (map device_json devices))
reply_json line_text (session_status status) = status_json status
reply_json line_text (sending r) = sending_json r
reply_json line_text (device_config config) = config_json config
reply_json line_text (hub_config config) = hub_json config
reply_json line_text (message text) = string text
reply_json line_text (estimate status) = snapshot status
reply_json line_text (raw_lines lines) =
    object (
      field (codes "lines") (array (items (map (λ (l : Line). string (line_text l)) lines)))
        nothing)

abbrev response : Bool → Json → Json → Fields
response succeeded payload error =
    field (codes "ok") (boolean succeeded)
      (field (codes "data") payload (field (codes "error") error nothing))

unfoldable pub response_of : Runtime → Result Reply → Fields
unfolding reply_json
response_of runtime (ok reply) = response true (reply_json runtime.line_text reply) null
response_of runtime (err e) = response false null (string (runtime.error_text e))

-- `_handle_client`: the bytes that answer a line.
unfoldable pub respond : Runtime → ℕ → Bytes → Server → Bytes × Server
unfolding response_of
respond runtime now line s =
    let (r, s') = handle_client runtime now line s in
    (runtime.dumps (object (response_of runtime r)), s')
