-- ===== src/CommandParser.antt =====
-- controllers/cli-controller/src/command_parser.cpp: a command of the specification, and how a line
-- of input becomes its package. The YAML library has read the specification, and popt, which parses
-- options, is an argument.
pub mod Reading
pub mod Lines
pub mod Completion
use yonderboy.Prelude.{
  ℕ, zero, suc, ◌+◌, ◌-◌, Bool, true, false, not, ◌&&◌, ◌||◌, Option, none, some, List, [], ◌∷◌,
  ◌++◌, Bytes, bytes_eq, bytes_key, length, take, drop, ltb, ◌==◌, if◌then◌else◌, is_some,
}
use yonderboy.Prelude.Text.{codes, is_empty}
use yonderboy.Prelude.Map.{Map, find, insert, set}
use yonderboy.Package.{Package, KeyValueMap, make_package}

-- Where popt puts what it reads: one of the parser's variables. A cell that a second option of the
-- same name has replaced is `leaked`.
pub data Target : Type 0 where
  renderer viewer view leaked : Target
  bool_argument string_argument : Bytes → Target

pub record PoptOption : Type 0 where
  pub long_name : Bytes
  pub short_name : Option ℕ
  pub takes_argument : Bool
  pub target : Target
  pub description : Option Bytes

-- `requiredParameter`
pub record RequiredParameter : Type 0 where
  pub name : Bytes
  pub description : Bytes

pub record CommandParser : Type 0 where
  pub valid : Bool
  pub command : Bytes
  pub description : Bytes
  pub options : List PoptOption
  pub parameters : List RequiredParameter
  pub bool_option_arguments : Map Bytes ℕ
  pub string_option_arguments : Map Bytes (Option Bytes)
  pub renderer_id : Option Bytes
  pub renderer_id_required : Bool
  pub viewer_id : Option Bytes
  pub viewer_id_required : Bool
  pub view_id : Option Bytes
  pub view_id_required : Bool
  pub generator_position : ℕ

-- `CommandParser()`
abbrev pub empty_parser : CommandParser
empty_parser = record {
  valid = false;
  command = [];
  description = [];
  options = [];
  parameters = [];
  bool_option_arguments = [];
  string_option_arguments = [];
  renderer_id = none;
  renderer_id_required = false;
  viewer_id = none;
  viewer_id_required = false;
  view_id = none;
  view_id_required = false;
  generator_position = 0;
}

-- An element of `required` or `optional`: a map, with what its keys have, or something else.
pub data ParameterNode : Type 0 where
  no_map : ParameterNode
  parameter : (name type description : Option Bytes) → ParameterNode

-- A node of the specification. A command that is no scalar is `none`, as is a missing description;
-- `required` and `optional` are `none` unless they are sequences.
pub record CommandNode : Type 0 where
  pub command : Option Bytes
  pub description : Option Bytes
  pub required : Option (List ParameterNode)
  pub optional : Option (List ParameterNode)

abbrev pub with_option : PoptOption → List PoptOption → List PoptOption
with_option o options = options ++ o ∷ []

-- The `malloc` for a name that is there already.
abbrev same_target : Target → Target → Bool
same_target (bool_argument a) (bool_argument b) = bytes_eq a b
same_target (string_argument a) (string_argument b) = bytes_eq a b
same_target _ _ = false

abbrev leak : Target → List PoptOption → List PoptOption
leak t [] = []
leak t (o ∷ options) =
    (if same_target o.target t then record o { target = leaked } else o) ∷ leak t options

abbrev non_empty : Bytes → Option Bytes
non_empty [] = none
non_empty (c ∷ cs) = some (c ∷ cs)

abbrev named_option : Bytes → ℕ → Target → Bytes → PoptOption
named_option name short t description = record {
  long_name = name;
  short_name = some short;
  takes_argument = true;
  target = t;
  description = some description;
}

abbrev plain_option : Bytes → Bool → Target → Bytes → PoptOption
plain_option name takes t description = record {
  long_name = name;
  short_name = none;
  takes_argument = takes;
  target = t;
  description = non_empty description;
}

unfoldable pub add_boolean : Bytes → Bytes → CommandParser → CommandParser
add_boolean name description p = record p {
  bool_option_arguments = set name 0 p.bool_option_arguments;
  options =
      with_option (plain_option name false (bool_argument name) description)
        (leak (bool_argument name) p.options);
}

unfoldable pub add_string : Bytes → Bytes → CommandParser → CommandParser
add_string name description p = record p {
  string_option_arguments = set name none p.string_option_arguments;
  options =
      with_option (plain_option name true (string_argument name) description)
        (leak (string_argument name) p.options);
}

unfoldable pub add_parameter : Bytes → Bytes → CommandParser → CommandParser
add_parameter name description p = record p {
  parameters = p.parameters ++ record { name = name; description = description } ∷ [];
}

unfoldable pub add_renderer : CommandParser → CommandParser
add_renderer p = if p.renderer_id_required then p else record p {
  renderer_id_required = true;
  options =
      with_option (named_option (codes "renderer") b'r' renderer (codes "renderer to use"))
        p.options;
}

unfoldable pub add_viewer : CommandParser → CommandParser
add_viewer p = if p.viewer_id_required then p else record p {
  viewer_id_required = true;
  options =
      with_option (named_option (codes "viewer") b'v' viewer (codes "viewer to use")) p.options;
}

unfoldable pub add_view : CommandParser → CommandParser
add_view p = if p.view_id_required then p else record p {
  view_id_required = true;
  options = with_option (named_option (codes "view") b'V' view (codes "view to use")) p.options;
}

-- The tests on the type of a parameter; `rest` is what another type does.
unfoldable pub add_typed :
    (Bytes → Bytes → CommandParser → CommandParser)
    → Bytes
    → Bytes
    → Bytes
    → CommandParser
    → CommandParser
add_typed rest name type description p =
    if bytes_eq type (codes "renderer")
    then add_renderer p
    else if bytes_eq type (codes "viewer")
    then add_viewer p
    else if bytes_eq type (codes "view")
    then add_view p
    else if bytes_eq type (codes "boolean")
    then add_boolean name description p
    else rest name description p

abbrev pub or_else : Bytes → Option Bytes → Bytes
or_else d none = d
or_else d (some v) = v

-- The two loops; a missing name throws, which ends the parsing of the node: the flag is whether it
-- goes on.
unfoldable pub add_nodes :
    (Bytes → Bytes → CommandParser → CommandParser)
    → List ParameterNode
    → CommandParser
    → CommandParser × Bool
add_nodes rest [] p = (p, true)
add_nodes rest (no_map ∷ nodes) p = add_nodes rest nodes p
add_nodes rest (parameter none type description ∷ nodes) p = (p, false)
add_nodes rest (parameter (some name) type description ∷ nodes) p =
    add_nodes rest nodes
      (add_typed rest name (or_else (codes "string") type) (or_else [] description) p)

unfoldable pub add_optional : Option (List ParameterNode) → CommandParser × Bool → CommandParser
add_optional none (p, go) = p
add_optional (some nodes) (p, false) = p
add_optional (some nodes) (p, true) = (add_nodes add_string nodes p).0

unfoldable pub add_required : Option (List ParameterNode) → CommandParser → CommandParser × Bool
add_required none p = (p, true)
add_required (some nodes) p = add_nodes add_parameter nodes p

-- `CommandParser(const YAML::Node&)`
unfoldable pub parse_node : CommandNode → CommandParser
parse_node node = elim node.command [
  | none ↦ empty_parser
  | some command ↦ elim node.description [
    | none ↦ record empty_parser { command = command }
    | some description ↦ add_optional node.optional (
        add_required node.required
          (record empty_parser { command = command; description = description }))
  ]
]
