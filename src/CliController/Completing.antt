-- ===== src/CliController/Completing.antt =====
-- controllers/cli-controller/src/controller.cpp and help_command_parser.cpp: completion of commands and
-- of their options.
use yonderboy.Prelude.{
  ℕ, ◌+◌, true, false, Option, none, some, List, [], ◌∷◌, Bytes, bytes_key, drop, ◌==◌,
  if◌then◌else◌,
}
use yonderboy.Prelude.Map.{Map}
use yonderboy.CommandParser.{CommandParser}
use yonderboy.CommandParser.Reading.{completion_generator, has_prefix}
use yonderboy.CliController.{
  AnyParser, plain, help, Controller, retrieve_command_parser, store_parser,
}

unfoldable pub next_command : Bytes → ℕ → Map Bytes AnyParser → Option Bytes × ℕ
next_command text n [] = (none, n)
next_command text n ((name, p) ∷ commands) = elim (has_prefix text name) [
  | true ↦ (some name, n + 1)
  | false ↦ next_command text (n + 1) commands
]

unfoldable pub command_completion_generator : Bytes → ℕ → Controller → Option Bytes × Controller
command_completion_generator text state c =
    let start = if state == 0 then 0 else c.completion in
    let (name, n) = next_command text start (drop start c.commands) in
    (name, record c { completion = n })

-- `HelpCommandParser::completionGenerator`, over the same table.
unfoldable pub help_completion_generator :
    Bytes → ℕ → Map Bytes AnyParser → CommandParser × ℕ → Option Bytes × AnyParser
help_completion_generator text state commands (p, position) =
    let start = if state == 0 then 0 else position in
    let (name, n) = next_command text start (drop start commands) in (name, help p n)

unfoldable pub any_completion_generator :
    Bytes → ℕ → Map Bytes AnyParser → AnyParser → Option Bytes × AnyParser
any_completion_generator text state commands (plain p) =
    let (completion, q) = completion_generator text state p in (completion, plain q)
any_completion_generator text state commands (help p n) =
    help_completion_generator text state commands (p, n)

-- The words of the line that is being typed.
unfoldable pub parameters_completion_generator :
    Option (List Bytes) → Bytes → ℕ → Controller → Option Bytes × Controller
parameters_completion_generator none text state c = (none, c)
parameters_completion_generator (some []) text state c = (none, c)
parameters_completion_generator (some (word ∷ words)) text state c =
    elim (retrieve_command_parser word c) [
      | none ↦ (none, c)
      | some p ↦
          let (completion, q) = any_completion_generator text state c.commands p in
          (completion, record c { commands = store_parser word q c.commands })
    ]

-- `generateCompletionMatches`: the generator that readline calls for a text that begins at `start`.
unfoldable pub generate_completion :
    Option (List Bytes) → Bytes → ℕ → ℕ → Controller → Option Bytes × Controller
generate_completion words text start state c =
    if start == 0
    then command_completion_generator text state c
    else parameters_completion_generator words text state c
