-- ===== src/Protocol/Command/Laws.antt =====
-- What `validate_command` accepts, and what it makes of it.
use slimhub_v.Prelude.{
  ◌≤◌, ◌<◌, ◌≡◌, refl, sym, ◌∙◌, Bool, if◌then◌else◌, true, false, inl, inr, List, [], ◌∷◌, arith,
  any, Text, text_eq, text_eq_sound, Bool-cases, ok, err, bad_command, All, length,
}
use slimhub_v.Protocol.Command.{
  validate_command, valid_commands, strong_enter, strong_exit, weak_enter, weak_exit,
  default_action,
}

-- What holds of each text of a list holds of a text that is found in it.
any_elim {ℓ} :
    (P : Text → Type ℓ) (l : List Text) → All P l → (c : Text) → any (text_eq c) l ≡ true → P c
any_elim P [] h c e = cc
any_elim P (x ∷ l) (hx, h) c e = elim (Bool-cases (text_eq c x)) [
  | inl same ↦ rw (text_eq_sound c x same) hx
  | inr other ↦ any_elim P l h c (ground arith)
]

-- The commands that a node is sent.
abbrev pub node_commands : List Text
node_commands = strong_enter ∷ strong_exit ∷ weak_enter ∷ weak_exit ∷ default_action ∷ []

-- A command of a node: no alias, ASCII, short, and kept by `validate_command`.
pub record IsNodeCommand (d : Text) : Type 0 where
  pub listed : any (text_eq d) node_commands ≡ true
  pub kept : validate_command d ≡ ok d
  pub is_ascii : All (λ c. c < 128) d
  pub short : length d ≤ 14

strong_enter-IsNodeCommand : IsNodeCommand strong_enter
unfolding validate_command
strong_enter-IsNodeCommand = record {
  listed = refl;
  kept = refl;
  is_ascii = omega arith;
  short = omega arith;
}

strong_exit-IsNodeCommand : IsNodeCommand strong_exit
unfolding validate_command
strong_exit-IsNodeCommand = record {
  listed = refl;
  kept = refl;
  is_ascii = omega arith;
  short = omega arith;
}

weak_enter-IsNodeCommand : IsNodeCommand weak_enter
unfolding validate_command
weak_enter-IsNodeCommand = record {
  listed = refl;
  kept = refl;
  is_ascii = omega arith;
  short = omega arith;
}

weak_exit-IsNodeCommand : IsNodeCommand weak_exit
unfolding validate_command
weak_exit-IsNodeCommand = record {
  listed = refl;
  kept = refl;
  is_ascii = omega arith;
  short = omega arith;
}

default_action-IsNodeCommand : IsNodeCommand default_action
unfolding validate_command
default_action-IsNodeCommand = record {
  listed = refl;
  kept = refl;
  is_ascii = omega arith;
  short = omega arith;
}

abbrev Validates : Text → Type 0
Validates c = (d : Text) × (validate_command c ≡ ok d) × IsNodeCommand d

all-Validates : All Validates valid_commands
unfolding validate_command
all-Validates = (
  (strong_enter, refl, strong_enter-IsNodeCommand),
  (
    (strong_exit, refl, strong_exit-IsNodeCommand),
    (
      (weak_enter, refl, weak_enter-IsNodeCommand),
      (
        (weak_exit, refl, weak_exit-IsNodeCommand),
        (
          (default_action, refl, default_action-IsNodeCommand),
          (
            (strong_enter, refl, strong_enter-IsNodeCommand),
            ((strong_exit, refl, strong_exit-IsNodeCommand), tt),
          ),
        ),
      ),
    ),
  ),
)

-- Every listed command is accepted and becomes a command of a node.
pub validate_command_listed :
    (c : Text)
    → any (text_eq c) valid_commands ≡ true
    → (d : Text) × (validate_command c ≡ ok d) × IsNodeCommand d
validate_command_listed = any_elim Validates valid_commands all-Validates

test_passed : (b : Bool) (x d : Text) → (if b then ok x else err bad_command) ≡ ok d → b ≡ true
test_passed true x d h = refl
test_passed false x d h = cc

validate_command-eq-ok :
    (c d : Text) → validate_command c ≡ ok d → any (text_eq c) valid_commands ≡ true
unfolding validate_command
validate_command-eq-ok c d h = test_passed _ _ d h

-- Whatever `validate_command` accepts becomes one of the five commands of a node, which is ASCII,
-- has at most 14 characters, and is accepted and kept by `validate_command`.
pub validate_command-IsNodeCommand : (c d : Text) → validate_command c ≡ ok d → IsNodeCommand d
validate_command-IsNodeCommand c d h =
    let (e, he, node) = validate_command_listed c (validate_command-eq-ok c d h) in
    let same : e ≡ d = ground (arith, sym he ∙ h) in rw (← same) node
