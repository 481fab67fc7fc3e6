-- ===== src/Tests/Clients.antt =====
-- The clients: runs of CommandParser, CliController, ServerConnection, ConfigurationReader and the
-- numbers of ConfigurationManager.
use yonderboy.PackageFactories.{construct_package}
use yonderboy.Prelude.{
  ◌≡◌, ◌++◌, refl, arith, inl, inr, true, false, none, some, List, [], ◌∷◌, Bytes, bytes_key,
  bytes_eq, bytes_less,
}
use yonderboy.Prelude.Signed.{pos, negsuc}
use yonderboy.Prelude.Text.{codes, decimal, read_u64}
use yonderboy.Prelude.Map.{find, insert, set}
use yonderboy.Macros.{acknowledgement, connected}
use yonderboy.Package.{Package, make_package}
use yonderboy.AbstractHost.{get_next_package_id, send_package}
use yonderboy.AbstractHost.Sending.{wire_texts}
use yonderboy.AbstractHost.Delivery.{package_of}
use yonderboy.Framing.{received_text}
use yonderboy.Framing.Delivery.{idle, receive_all}
use yonderboy.CommandParser.{
  CommandNode, CommandParser, PoptOption, add_boolean, add_nodes, add_optional, add_parameter,
  add_required, add_string, add_typed, parameter, parse_node, string_argument,
}
use yonderboy.CommandParser.Reading.{
  PoptAnswer, assign_all, command_map, comparison_text, completion_generator,
  construct_package_from_line, has_prefix, insert_flags, insert_parameters, insert_strings,
  insert_target, insert_targets, next_completion, reset, start_map,
}
use yonderboy.CommandParser.Lines.{
  IsCommandMap, command_map-IsCommandMap, construct_package_from_line-reset,
}
use yonderboy.CommandParser.Completion.{
  collect, completions, completions-matching, later_completions, matching,
}
use yonderboy.CliController.{
  Controller, SpecEntry, add_entries, add_entry, add_sources, blank_controller, greet,
  handle_acknowledgement, handle_package, handle_typed, new_controller, parse_spec_file,
  send_and_wait, start_readline,
}
use yonderboy.CliController.Prompt.{IsPrompting, start, later, package_received, Events-IsPrompting}
use yonderboy.ServerConnection.{ServerConnection, new_connection, process_text, signal_callback}
use yonderboy.ServerConnection.Delivery.{taken_all, receive_all-received}
use yonderboy.ServerConnection.Queues.{client_send_all, signal_callback-sends}
use yonderboy.ConfigurationReader.{find_file, readable_file}
use yonderboy.ConfigurationManager.{value_as_long_long}
use yonderboy.ConfigurationManager.Numbers.{value_as_long_long-decimal}
use yonderboy.Tests.Data.{
  a_host, a_renderer, a_package, open_uri, open_uri-IsWireSafe, open_uri-valid,
}

-- `open-uri` with a required `uri`, an optional `title` and an optional flag `tab`.
abbrev open_node : CommandNode
open_node = record {
  command = some (codes "open-uri");
  description = some (codes "open a page");
  required = some (parameter (some (codes "uri")) none none ∷ []);
  optional = some (
      parameter (some (codes "title")) none none
      ∷ parameter (some (codes "tab")) (some (codes "boolean")) none
      ∷ []);
}

abbrev open_parser : CommandParser
open_parser = parse_node open_node

-- popt has read `open-uri --title a b`.
abbrev read_title : List PoptOption → List Bytes → PoptAnswer
read_title options argv = record {
  assignments = (string_argument (codes "title"), codes "a") ∷ [];
  failed = false;
  arguments = codes "b" ∷ [];
}

abbrev arguments : List Bytes
arguments = codes "open-uri" ∷ codes "--title" ∷ codes "a" ∷ codes "b" ∷ []

completions_open : completions 3 (codes "--t") open_parser ≡ codes "--title" ∷ codes "--tab" ∷ []
unfolding completions bytes_eq bytes_less collect completion_generator comparison_text
    next_completion parse_node add_optional add_required add_nodes add_typed add_boolean add_string
    add_parameter has_prefix later_completions
completions_open = refl

completions-matching_example :
    completions 2 (codes "--t") open_parser ≡ matching (codes "t") open_parser.options
unfolding parse_node bytes_eq bytes_less comparison_text add_optional add_required add_nodes
    add_typed add_boolean add_string add_parameter
completions-matching_example = completions-matching (codes "--t") (codes "t") open_parser refl

titled_map :
    (command_map open_parser (codes "b" ∷ []) (codes "5"))
    ≡ some (
        (codes "command", codes "open-uri")
        ∷ (codes "id", codes "5")
        ∷ (codes "type", codes "command")
        ∷ (codes "uri", codes "b")
        ∷ [])
unfolding command_map bytes_eq bytes_less insert_parameters parse_node add_optional add_required
    add_nodes add_typed add_boolean add_string add_parameter insert_targets insert_target
    insert_strings set insert_flags insert start_map
titled_map = refl

command_map-IsCommandMap_example : IsCommandMap open_parser (codes "5") (
    (codes "command", codes "open-uri")
    ∷ (codes "id", codes "5")
    ∷ (codes "type", codes "command")
    ∷ (codes "uri", codes "b")
    ∷ [])
command_map-IsCommandMap_example =
    command_map-IsCommandMap open_parser (codes "b" ∷ []) (codes "5") _ titled_map

construct_package_from_line-reset_example :
    ((read_title open_parser.options arguments).failed ≡ false
      → (construct_package_from_line read_title arguments (codes "5") open_parser).1
        ≡ reset open_parser)
    × ((read_title open_parser.options arguments).failed ≡ true
        → construct_package_from_line read_title arguments (codes "5") open_parser
          ≡ (none, assign_all (read_title open_parser.options arguments).assignments open_parser))
construct_package_from_line-reset_example =
    construct_package_from_line-reset read_title arguments (codes "5") open_parser

abbrev entries : List SpecEntry
entries =
    record {
      command = some (codes "open-uri");
      source = some (codes "controller" ∷ []);
      node = open_node;
    }
    ∷ []

abbrev a_cli : Controller
a_cli =
    greet (codes "cli") (codes "1")
      (add_entries entries (blank_controller (a_host a_renderer) false))

a_cli-made :
    new_controller (a_host a_renderer) false (some entries) (codes "cli") (codes "1") ≡ some a_cli
unfolding new_controller parse_spec_file
a_cli-made = refl

-- The acknowledgement of the greeting.
abbrev an_acknowledgement : Package
an_acknowledgement = record (a_package acknowledgement []) { id = a_cli.last_send_package_id }

Events-IsPrompting_example : IsPrompting (record a_cli { waiting_for_ack = false; reading = true })
unfolding new_controller bytes_eq bytes_less handle_package handle_typed handle_acknowledgement
    greet send_and_wait construct_package add_entries add_entry add_sources read_u64
    get_next_package_id decimal start_readline
Events-IsPrompting_example =
    Events-IsPrompting (a_host a_renderer) false entries (codes "cli") (codes "1") a_cli-made
      (later start (package_received an_acknowledgement refl))

receive_all-received_example :
    (receive_all process_text b'='
        (codes "command = open-uri\nty" ∷ codes "pe = command\n{}\n\n" ∷ [])
        (idle (new_connection (a_host a_renderer)))
      ≡ idle
          (taken_all (package_of (open_uri, codes "{}") ∷ []) (new_connection (a_host a_renderer))))
    × ((taken_all
          (package_of (open_uri, codes "{}") ∷ [])
          (new_connection (a_host a_renderer))).received_packages
        ≡ package_of (open_uri, codes "{}") ∷ [])
unfolding send_package make_package bytes_eq bytes_less received_text find read_u64
receive_all-received_example =
    receive_all-received ((open_uri, codes "{}") ∷ []) (a_host a_renderer) b'='
      (codes "command = open-uri\nty" ∷ codes "pe = command\n{}\n\n" ∷ [])
      (new_connection (a_host a_renderer))
      (
        record {
          has_entry = λ e. ground arith;
          wire_safe = open_uri-IsWireSafe;
          is_valid = open_uri-valid;
        },
        tt,
      )
      (inr refl) refl (omega arith)
      (
        record { nonempty = λ e. ground arith; whole = refl },
        (record { nonempty = λ e. ground arith; whole = refl }, tt),
      )
      refl

-- A package waits already, and the client sends two more before the thread wakes up.
abbrev one_waits : ServerConnection
one_waits = record (new_connection (record (a_host a_renderer) { state = connected })) {
  to_send_packages = package_of (open_uri, codes "{}") ∷ [];
}

abbrev valid_packages : List Package
valid_packages = package_of (open_uri, codes "{}") ∷ package_of (open_uri, codes "{}") ∷ []

signal_callback-sends_example :
    ((signal_callback false true (client_send_all valid_packages one_waits)).0.host.send_buffer
      ≡ wire_texts (one_waits.to_send_packages ++ valid_packages))
    × ((signal_callback false true (client_send_all valid_packages one_waits)).0.to_send_packages
        ≡ [])
    × ((signal_callback false true (client_send_all valid_packages one_waits)).1 ≡ false)
signal_callback-sends_example =
    signal_callback-sends valid_packages true one_waits (inl refl)
      (open_uri-valid, (open_uri-valid, (open_uri-valid, tt)))

value_as_long_long-decimal_example :
    (value_as_long_long (codes "17") (pos 0) ≡ pos 17)
    × (value_as_long_long (codes "-17") (pos 0) ≡ negsuc 16)
unfolding decimal
value_as_long_long-decimal_example = value_as_long_long-decimal (pos 0) 17 (omega arith)

-- The second file of the list can be read.
find_second :
    find_file
      (λ file. some (file ∷ []))
      (λ word. bytes_eq word (codes "b"))
      (codes "a" ∷ codes "b" ∷ [])
    ≡ some (codes "b")
unfolding find_file bytes_eq readable_file
find_second = refl
