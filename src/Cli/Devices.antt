-- ===== src/Cli/Devices.antt =====
-- The table that the `devices` command prints, from the daemon's list of devices.
use slimhub_v.Prelude.{
  ◌≡◌, refl, ap, inl, inr, Bool-cases, ◌∙◌, Bool, true, false, if◌then◌else◌, List, [], ◌∷◌, map,
  Text, codes, text_eq, Option, none, some,
}
use slimhub_v.Prelude.Json.{Json, string, boolean, Fields, get_field, items}
use slimhub_v.Events.{text_or, option_or}
use slimhub_v.Daemon.Arguments.{Runtime, str}
use slimhub_v.Daemon.Dispatch.{device_list}
use slimhub_v.Daemon.Report.{Device}
use slimhub_v.Daemon.Response.{with_field, json_if, device_fields, device_json, reply_json}
use slimhub_v.Cli.Print.{
  Printed, plain, str_or, true_or, after_line, Printout, printed_all, columns, device_line,
  print_items, print_devices,
}

abbrev bool_text : Bool → Text
bool_text true = codes "True"
bool_text false = codes "False"

-- An absent value is shown as its default.
abbrev given_or : Option Text → Text → Text
given_or none default = default
given_or (some t) default = t

-- A row of the table.
unfoldable pub row_of : Device → Text
row_of item =
    columns item.address (option_or item.type [])
      (text_or (option_or item.configured_name []) item.name)
      (given_or item.location (codes "undefined")) (bool_text item.connected)

abbrev or_else : Option Json → Option Json → Option Json
or_else none rest = rest
or_else (some v) rest = some v

get-with_field :
    (j k : Text) (v : Option Json) (fields : Fields)
    → get_field k (with_field j v fields)
      ≡ (if text_eq j k then or_else v (get_field k fields) else get_field k fields)
unfolding with_field get_field
get-with_field j k none fields = elim (Bool-cases (text_eq j k)) [
  | inl same ↦ rw same refl
  | inr other ↦ rw other refl
]
get-with_field j k (some v) fields = refl

or_else-none : (v : Option Json) → or_else v none ≡ v
or_else-none none = refl
or_else-none (some v) = refl

-- The fields that are printed, whatever other fields stand between them.
get_address :
    (aliases : Option (List Text)) (item : Device)
    → get_field (codes "address") (device_fields aliases item) ≡ some (string item.address)
unfolding device_fields get_field text_eq
get_address none item = refl
get_address (some l) item = refl

get_name :
    (aliases : Option (List Text)) (item : Device)
    → get_field (codes "name") (device_fields aliases item) ≡ some (string item.name)
unfolding device_fields get_field text_eq
get_name none item = refl
get_name (some l) item = refl

get_type :
    (aliases : Option (List Text)) (item : Device)
    → get_field (codes "type") (device_fields aliases item)
      ≡ json_if (λ (t : Text). string t) item.type
unfolding device_fields get_field text_eq
get_type none item = simp (get-with_field, or_else-none)
get_type (some l) item = simp (get-with_field, or_else-none)

get_configured_name :
    (aliases : Option (List Text)) (item : Device)
    → get_field (codes "configured_name") (device_fields aliases item)
      ≡ json_if (λ (t : Text). string t) item.configured_name
unfolding device_fields get_field text_eq
get_configured_name none item = simp (get-with_field, or_else-none)
get_configured_name (some l) item = simp (get-with_field, or_else-none)

get_location :
    (aliases : Option (List Text)) (item : Device)
    → get_field (codes "location") (device_fields aliases item)
      ≡ json_if (λ (t : Text). string t) item.location
unfolding device_fields get_field text_eq
get_location none item = simp (get-with_field, or_else-none)
get_location (some l) item = simp (get-with_field, or_else-none)

get_connected :
    (aliases : Option (List Text)) (item : Device)
    → get_field (codes "connected") (device_fields aliases item) ≡ some (boolean item.connected)
unfolding device_fields get_field text_eq
get_connected none item = simp get-with_field
get_connected (some l) item = refl

module _ (runtime : Runtime) where
  str-boolean : (b : Bool) → str runtime (boolean b) ≡ bool_text b
  str-boolean true = refl
  str-boolean false = refl

  str_or-option :
      (default : Text) (t : Option Text)
      → str_or runtime default (json_if (λ (t : Text). string t) t) ≡ given_or t default
  str_or-option default none = refl
  str_or-option default (some t) = refl

  true_or-option :
      (t : Option Text) (rest : Text)
      → true_or runtime (json_if (λ (t : Text). string t) t) rest ≡ text_or (option_or t []) rest
  true_or-option none rest = refl
  true_or-option (some []) rest = refl
  true_or-option (some (c ∷ t)) rest = refl

  text_or-empty : (t : Text) → text_or t [] ≡ t
  text_or-empty [] = refl
  text_or-empty (c ∷ t) = refl

  type_shown :
      (t : Option Text) → true_or runtime (json_if (λ (t : Text). string t) t) [] ≡ option_or t []
  type_shown none = refl
  type_shown (some t) = true_or-option (some t) [] ∙ text_or-empty (text_or t [])

  name_shown :
      (t : Option Text) (name : Text)
      → true_or runtime
          (json_if (λ (t : Text). string t) t)
          (true_or runtime (some (string name)) [])
        ≡ text_or (option_or t []) name
  name_shown t name =
      true_or-option t (true_or runtime (some (string name)) [])
      ∙ ap (text_or (option_or t []))
          (true_or-option (some name) [] ∙ text_or-empty (text_or name []) ∙ text_or-empty name)

  device_line-device_fields :
      (aliases : Option (List Text)) (item : Device)
      → device_line runtime (device_fields aliases item) ≡ row_of item
  unfolding device_line columns row_of
  device_line-device_fields aliases item =
      rw
        (
          get_address aliases item,
          get_name aliases item,
          get_type aliases item,
          get_configured_name aliases item,
          get_location aliases item,
          get_connected aliases item,
          type_shown item.type,
          name_shown item.configured_name item.name,
          str_or-option (codes "undefined") item.location,
          str-boolean item.connected,
        )
        refl

  print_items-devices :
      (devices : List Device)
      → print_items runtime (items (map device_json devices))
        ≡ printed_all (map (λ (d : Device). plain (row_of d)) devices)
  unfolding print_items items device_json
  print_items-devices [] = refl
  print_items-devices (item ∷ devices) =
      rw (print_items-devices devices, device_line-device_fields item.aliases item) refl

-- The table of a list of devices.
abbrev pub table_of : List Device → List Printed
table_of [] = plain (codes "No devices") ∷ []
table_of (item ∷ devices) =
    plain (
      columns (codes "Address") (codes "Type") (codes "Name") (codes "Location")
        (codes "Connected"))
    ∷ map (λ (d : Device). plain (row_of d)) (item ∷ devices)

-- The data that the daemon answers to `devices` is printed without an error: a line that says that there
-- are no devices, or the headings and one row per device, in order. The row shows the device's address, its
-- type or nothing, its configured name or else its own name, its location or "undefined", and whether it
-- is connected.
pub print_devices-device_list :
    (runtime : Runtime) (devices : List Device)
    → print_devices runtime (reply_json runtime.line_text (device_list devices))
      ≡ printed_all (table_of devices)
unfolding print_devices reply_json items device_json
print_devices-device_list runtime [] = refl
print_devices-device_list runtime (item ∷ devices) =
    ap
      (λ (p : Printout).
        after_line
          (columns (codes "Address") (codes "Type") (codes "Name") (codes "Location")
            (codes "Connected"))
          p)
      (print_items-devices runtime (item ∷ devices))
