-- ===== src/CommandParser/Reading.antt =====
-- controllers/cli-controller/src/command_parser.cpp: how a line becomes a package, and completion.
use yonderboy.Prelude.{
  ℕ, ◌+◌, Bool, true, false, not, ◌&&◌, Option, none, some, List, [], ◌∷◌, Bytes, bytes_eq,
  bytes_key, drop, ◌==◌, if◌then◌else◌,
}
use yonderboy.Prelude.Text.{codes}
use yonderboy.Prelude.Map.{Map, insert}
use yonderboy.Package.{Package, KeyValueMap, make_package}
use yonderboy.CommandParser.{
  Target, renderer, viewer, view, leaked, bool_argument, string_argument, PoptOption,
  RequiredParameter, CommandParser, or_else,
}

unfoldable pub zeroed : Map Bytes ℕ → Map Bytes ℕ
zeroed [] = []
zeroed ((name, n) ∷ m) = (name, 0) ∷ zeroed m

unfoldable pub freed : Map Bytes (Option Bytes) → Map Bytes (Option Bytes)
freed [] = []
freed ((name, v) ∷ m) = (name, none) ∷ freed m

unfoldable pub reset : CommandParser → CommandParser
reset p = record p {
  bool_option_arguments = zeroed p.bool_option_arguments;
  string_option_arguments = freed p.string_option_arguments;
  renderer_id = none;
  viewer_id = none;
  view_id = none;
}

-- A cell of a map that a pointer leads to.
unfoldable pub write_cell {ℓ} : {V : Type ℓ} → Bytes → V → Map Bytes V → Map Bytes V
write_cell name v [] = []
write_cell name v ((other, w) ∷ m) =
    if bytes_eq other name then (other, v) ∷ m else (other, w) ∷ write_cell name v m

unfoldable pub assign : Target × Bytes → CommandParser → CommandParser
assign (renderer, v) p = record p { renderer_id = some v }
assign (viewer, v) p = record p { viewer_id = some v }
assign (view, v) p = record p { view_id = some v }
assign (leaked, v) p = p
assign (bool_argument name, v) p = record p {
  bool_option_arguments = write_cell name 1 p.bool_option_arguments;
}
assign (string_argument name, v) p = record p {
  string_option_arguments = write_cell name (some v) p.string_option_arguments;
}

unfoldable pub assign_all : List (Target × Bytes) → CommandParser → CommandParser
assign_all [] p = p
assign_all (a ∷ rest) p = assign_all rest (assign a p)

-- What popt makes of a line: what it has put into the variables, whether it met an option that it
-- does not know, and the arguments that are left.
pub record PoptAnswer : Type 0 where
  pub assignments : List (Target × Bytes)
  pub failed : Bool
  pub arguments : List Bytes

-- `none` where an argument is missing.
unfoldable pub insert_parameters :
    List RequiredParameter → List Bytes → KeyValueMap → Option KeyValueMap
insert_parameters [] arguments m = some m
insert_parameters (q ∷ parameters) [] m = none
insert_parameters (q ∷ parameters) (v ∷ arguments) m =
    insert_parameters parameters arguments (insert q.name v m)

unfoldable pub insert_flags : Map Bytes ℕ → KeyValueMap → KeyValueMap
insert_flags [] m = m
insert_flags ((name, n) ∷ flags) m =
    insert_flags flags (if not (n == 0) then insert name [] m else m)

unfoldable pub insert_strings : Map Bytes (Option Bytes) → KeyValueMap → KeyValueMap
insert_strings [] m = m
insert_strings ((name, none) ∷ strings) m = insert_strings strings m
insert_strings ((name, some v) ∷ strings) m = insert_strings strings (insert name v m)

unfoldable pub insert_target : Bool → Bytes → Option Bytes → KeyValueMap → KeyValueMap
insert_target false key id m = m
insert_target true key id m = insert key (or_else (codes "focused") id) m

unfoldable pub insert_targets : CommandParser → KeyValueMap → KeyValueMap
insert_targets p m = insert_target p.view_id_required (codes "view-id") p.view_id (
    insert_target p.viewer_id_required (codes "viewer-id") p.viewer_id
      (insert_target p.renderer_id_required (codes "renderer-id") p.renderer_id m))

unfoldable pub start_map : Bytes → Bytes → KeyValueMap
start_map command package_id =
    insert (codes "command") command
      (insert (codes "id") package_id (insert (codes "type") (codes "command") []))

-- The map of the package, from the variables that popt has filled.
unfoldable pub command_map : CommandParser → List Bytes → Bytes → Option KeyValueMap
command_map p arguments package_id =
    elim (insert_parameters p.parameters arguments (start_map p.command package_id)) [
      | none ↦ none
      | some m ↦ some (
          insert_targets p
            (insert_strings p.string_option_arguments (insert_flags p.bool_option_arguments m)))
    ]

abbrev pub made_package : Option KeyValueMap → Option Package
made_package none = none
made_package (some m) = some (make_package (some m) [])

-- `constructPackageFromLine`; `none` is the null pointer.
unfoldable pub construct_package_from_line :
    (List PoptOption → List Bytes → PoptAnswer)
    → List Bytes
    → Bytes
    → CommandParser
    → Option Package × CommandParser
construct_package_from_line popt argv package_id p =
    let answer = popt p.options argv in
    let q = assign_all answer.assignments p in
    if answer.failed
    then (none, q)
    else (made_package (command_map q answer.arguments package_id), reset q)

-- `text` up to the prefix of two dashes; `none` is text that is no option.
unfoldable pub comparison_text : Bytes → Option Bytes
comparison_text [] = some []
comparison_text (c ∷ []) = if c == b'-' then some [] else none
comparison_text (c ∷ d ∷ cs) = if c == b'-' && d == b'-' then some cs else none

unfoldable pub has_prefix : Bytes → Bytes → Bool
has_prefix [] name = true
has_prefix (c ∷ cs) [] = false
has_prefix (c ∷ cs) (d ∷ name) = c == d && has_prefix cs name

-- The loop over the options that are left, at the position.
unfoldable pub next_completion : Bytes → ℕ → List PoptOption → Option Bytes × ℕ
next_completion text n [] = (none, n)
next_completion text n (o ∷ options) = elim (has_prefix text o.long_name) [
  | true ↦ (some (b'-' ∷ b'-' ∷ o.long_name), n + 1)
  | false ↦ next_completion text (n + 1) options
]

unfoldable pub completion_generator : Bytes → ℕ → CommandParser → Option Bytes × CommandParser
completion_generator text state p =
    let start = if state == 0 then 0 else p.generator_position in
    elim (comparison_text text) [
      | none ↦ (none, record p { generator_position = start })
      | some compared ↦
          let (completion, n) = next_completion compared start (drop start p.options) in
          (completion, record p { generator_position = n })
    ]
