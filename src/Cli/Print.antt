-- ===== src/Cli/Print.antt =====
-- What slimhub/cli/app.py prints of the data of an answer: `_print_result`, `_print_devices` and
-- `_print_command_send`. A line is a text, or the data as JSON; an exception comes with the lines that
-- were printed before it.
use slimhub_v.Prelude.{
  ℕ, zero, suc, ◌-◌, ◌||◌, if◌then◌else◌, List, [], ◌∷◌, ◌++◌, map, length, Text, codes, Option,
  none, some, Error, Result, ok, err, bad_type,
}
use slimhub_v.Prelude.Json.{
  Json, string, array, object, Items, empty, item, Fields, nothing, get_field, truthy, list_of,
  keys,
}
use slimhub_v.Daemon.Arguments.{Runtime, str, str_or_none}
use slimhub_v.Cli.{Subcommand, raw_tail, command_send, is_devices, Namespace}

pub data Printed : Type 0 where
  plain : Text → Printed
  as_json : Json → Printed

-- The lines, and the exception that ended the printing.
pub record Printout : Type 0 where
  pub lines : List Printed
  pub raised : Option Error

abbrev pub printed_all : List Printed → Printout
printed_all lines = record { lines = lines; raised = none }

abbrev printed_none : Error → Printout
printed_none e = record { lines = []; raised = some e }

abbrev pub after_line : Text → Printout → Printout
after_line line p = record p { lines = plain line ∷ p.lines }

-- `f"{text:<n}"`
unfoldable spaces : ℕ → Text
spaces zero = []
spaces (suc n) = 32 ∷ spaces n

unfoldable pub padded : ℕ → Text → Text
unfolding spaces
padded n text = text ++ spaces (n - length text)

unfoldable pub columns : Text → Text → Text → Text → Text → Text
columns address type name location connected =
    padded 20 address
    ++ (padded 15 type ++ (padded 15 name ++ (padded 15 location ++ padded 10 connected)))

module _ (runtime : Runtime) where
  -- `str(item.get(k, default))`
  abbrev pub str_or : Text → Option Json → Text
  str_or default none = default
  str_or default (some v) = str runtime v

  -- `str(v or rest)`
  abbrev pub true_or : Option Json → Text → Text
  true_or none rest = rest
  true_or (some v) rest = if truthy v then str runtime v else rest

  unfoldable pub device_line : Fields → Text
  unfolding columns get_field
  device_line fields =
      let at = λ (k : Text). get_field k fields in
      columns (str_or [] (at (codes "address"))) (true_or (at (codes "type")) [])
        (true_or (at (codes "configured_name")) (true_or (at (codes "name")) []))
        (str_or (codes "undefined") (at (codes "location")))
        (str_or (codes "False") (at (codes "connected")))

  abbrev print_device : Json → Printout → Printout
  print_device (object fields) rest = after_line (device_line fields) rest
  print_device _ rest = printed_none bad_type

  -- The loop over the devices.
  unfoldable pub print_items : Items → Printout
  unfolding device_line
  print_items empty = printed_all []
  print_items (item v items) = print_device v (print_items items)

  unfoldable pub print_devices : Json → Printout
  unfolding columns print_items
  print_devices (array (item v items)) =
      after_line
        (columns (codes "Address") (codes "Type") (codes "Name") (codes "Location")
          (codes "Connected"))
        (print_items (item v items))
  print_devices _ = printed_all (plain (codes "No devices") ∷ [])

  -- `data if isinstance(data, dict) else {}`
  abbrev object_or_empty : Option Json → Fields
  object_or_empty (some (object fields)) = fields
  object_or_empty _ = nothing

  unfoldable pub print_command_send : Json → Text
  unfolding get_field
  print_command_send answer =
      let payload = object_or_empty (some answer) in
      let session_payload = object_or_empty (get_field (codes "session") payload) in
      codes "NUS write queued: command="
      ++ (str_or_none runtime (get_field (codes "command") payload)
          ++ (codes " address="
              ++ (str_or_none runtime (get_field (codes "address") payload)
                  ++ (codes " session="
                      ++ str_or_none runtime (get_field (codes "address") session_payload)))))

  -- What a loop goes through: the items of a list, the keys of an object, the characters of a text.
  abbrev iterated : Json → Result (List Text)
  iterated (array items) = ok (map (λ (v : Json). str runtime v) (list_of items))
  iterated (object fields) = ok (keys fields)
  iterated (string text) = ok (map (λ (c : ℕ). c ∷ []) text)
  iterated _ = err bad_type

  abbrev iterated_or_empty : Option Json → Result (List Text)
  iterated_or_empty none = ok []
  iterated_or_empty (some v) = iterated v

  -- `(data or {}).get("lines", [])`, of data that counts as true: a text, a number and a list have no
  -- `get`.
  abbrev lines_field : Json → Result (List Text)
  lines_field (object fields) = iterated_or_empty (get_field (codes "lines") fields)
  lines_field _ = err bad_type

  unfoldable pub lines_in_answer : Json → Result (List Text)
  unfolding get_field list_of keys
  lines_in_answer answer = if truthy answer then lines_field answer else ok []

  abbrev lines_printed : Result (List Text) → Printout
  lines_printed (err e) = printed_none e
  lines_printed (ok lines) = printed_all (map (λ (t : Text). plain t) lines)

  abbrev pub print_other : Json → Printout
  print_other (string text) = printed_all (plain text ∷ [])
  print_other answer = printed_all (as_json answer ∷ [])

  abbrev pub print_sub : Subcommand → Json → Printout
  print_sub (raw_tail address lines) answer = lines_printed (lines_in_answer answer)
  print_sub (command_send address command) answer =
      printed_all (plain (print_command_send answer) ∷ [])
  print_sub _ answer = print_other answer

  unfoldable pub print_result : Namespace → Json → Printout
  unfolding print_devices print_command_send lines_in_answer
  print_result args answer =
      if args.list_flag || is_devices args.subcommand
      then print_devices answer
      else print_sub args.subcommand answer
