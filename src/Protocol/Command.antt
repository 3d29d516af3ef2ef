-- ===== src/Protocol/Command.antt =====
-- The commands of slimhub/protocol/nus.py: `VALID_COMMANDS`, `COMMAND_ALIASES`, `validate_command`.
pub mod Laws
use slimhub_v.Prelude.{
  List, [], ◌∷◌, if◌then◌else◌, any, Text, codes, text_eq, Result, ok, err, bad_command, Option,
  none, some,
}
use slimhub_v.Prelude.Dict.{Dict, lookup}

abbrev pub strong_enter : Text
strong_enter = codes "strong_enter"

abbrev pub strong_exit : Text
strong_exit = codes "strong_exit"

abbrev pub weak_enter : Text
weak_enter = codes "weak_enter"

abbrev pub weak_exit : Text
weak_exit = codes "weak_exit"

abbrev pub default_action : Text
default_action = codes "default_action"

abbrev pub enter : Text
enter = codes "enter"

abbrev pub exit : Text
exit = codes "exit"

abbrev pub valid_commands : List Text
valid_commands =
    strong_enter ∷ strong_exit ∷ weak_enter ∷ weak_exit ∷ default_action ∷ enter ∷ exit ∷ []

abbrev pub command_aliases : Dict Text
command_aliases = (enter, strong_enter) ∷ (exit, strong_exit) ∷ []

-- `command_aliases.get(command, command)`
abbrev or_default : Option Text → Text → Text
or_default none d = d
or_default (some t) d = t

unfoldable pub validate_command : Text → Result Text
unfolding lookup text_eq
validate_command command =
    if any (text_eq command) valid_commands
    then ok (or_default (lookup command command_aliases) command)
    else err bad_command
