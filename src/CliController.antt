-- ===== src/CliController.antt =====
-- controllers/cli-controller/src/controller.cpp and help_command_parser.cpp: the client that sends a
-- command for each line of input and reads the next line when the command is acknowledged. What it
-- prints is outside; readline and popt are arguments. Its AbstractHost (shared/abstract_host.cpp)
-- sends and counts as the daemon's does; `role` and `id` of the record are not used.
pub mod Prompt
pub mod Completing
use yonderboy.Prelude.{
  ℕ, zero, suc, ◌+◌, Bool, true, false, not, ◌&&◌, ◌||◌, Option, none, some, List, [], ◌∷◌, ◌++◌,
  Bytes, bytes_eq, bytes_key, length, drop, ltb, ◌==◌, if◌then◌else◌,
}
use yonderboy.Prelude.Text.{codes, is_empty}
use yonderboy.Prelude.Map.{Map, find, insert}
use yonderboy.Macros.{
  PackageType, unknown, command, status_change, request, response, acknowledgement,
  connection_management,
}
use yonderboy.Package.{Package}
use yonderboy.PackageFactories.{construct_package}
use yonderboy.AbstractHost.{Host, get_next_package_id, send_package}
use yonderboy.CommandParser.{
  CommandParser, CommandNode, empty_parser, RequiredParameter, PoptOption, parse_node,
  add_parameter,
}
use yonderboy.CommandParser.Reading.{
  PoptAnswer, construct_package_from_line, completion_generator, has_prefix,
}

-- The parser of `help` has the table of commands, and a position in it.
pub data AnyParser : Type 0 where
  plain : CommandParser → AnyParser
  help : CommandParser → ℕ → AnyParser

-- `reading` is whether readline and its watcher are installed; `watching` is whether `stdinWatcher`
-- is there; `completion` is `commandCompletionIterator` as a position.
pub record Controller : Type 0 where
  pub host : Host
  pub commands : Map Bytes AnyParser
  pub display_stati : Bool
  pub last_send_package_id : ℕ
  pub waiting_for_ack : Bool
  pub max_command_name_length : ℕ
  pub watching : Bool
  pub reading : Bool
  pub running : Bool
  pub completion : ℕ

-- `HelpCommandParser(commands, maxCommandNameLength)`
unfoldable pub help_parser : CommandParser
help_parser =
    add_parameter (codes "command") (codes "the command to get help on") (record empty_parser {
      valid = true;
      command = codes "help";
      description = codes "get help on the commands available";
    })

-- A null `stdinWatcher` is a fault: `none`.
unfoldable pub start_readline : Controller → Option Controller
start_readline c = if c.watching then some (record c { reading = true }) else none

unfoldable pub stop_readline : Controller → Option Controller
stop_readline c = if c.watching then some (record c { reading = false }) else none

abbrev stopped : Option Controller → Option Controller
stopped none = none
stopped (some c) = some (record c { running = false })

unfoldable pub quit : Controller → Option Controller
quit c = stopped (stop_readline c)

-- A command of the specification with its sources; what is no scalar or no sequence is `none`.
pub record SpecEntry : Type 0 where
  pub command : Option Bytes
  pub source : Option (List Bytes)
  pub node : CommandNode

unfoldable pub add_sources : Bytes → CommandNode → List Bytes → Controller → Controller
add_sources name node [] c = c
add_sources name node (source ∷ sources) c =
    let p = parse_node node in
    add_sources name node sources (
      if bytes_eq source (codes "controller")
      then record c {
        commands = insert name (plain p) c.commands;
        max_command_name_length =
            if ltb c.max_command_name_length (length p.command)
            then length p.command
            else c.max_command_name_length;
      }
      else c)

unfoldable pub add_entry :
    Option Bytes → Option (List Bytes) → CommandNode → Controller → Controller
add_entry none sources node c = c
add_entry (some name) none node c = c
add_entry (some name) (some sources) node c = add_sources name node sources c

unfoldable pub add_entries : List SpecEntry → Controller → Controller
add_entries [] c = c
add_entries (e ∷ entries) c = add_entries entries (add_entry e.command e.source e.node c)

-- The specification that the YAML library reads from the file; `none` is a file that cannot be read.
unfoldable pub parse_spec_file : Option (List SpecEntry) → Controller → Option Controller
parse_spec_file none c = quit c
parse_spec_file (some entries) c = some (add_entries entries c)

abbrev greeting : Bool → Bytes → Bytes → Bytes → List (Bytes × Bytes)
greeting true id name version =
    (codes "id", id)
    ∷ (codes "command", codes "initialize")
    ∷ (codes "client-name", name)
    ∷ (codes "client-version", version)
    ∷ (codes "can-display-stati", [])
    ∷ (codes "interactive", [])
    ∷ (codes "can-handle-requests", [])
    ∷ []
greeting false id name version =
    (codes "id", id)
    ∷ (codes "command", codes "initialize")
    ∷ (codes "client-name", name)
    ∷ (codes "client-version", version)
    ∷ (codes "interactive", [])
    ∷ (codes "can-handle-requests", [])
    ∷ []

-- A package goes to the server, and the controller waits for its acknowledgement.
unfoldable pub send_and_wait : Package → Controller → Controller
send_and_wait p c = record c {
  last_send_package_id = p.id;
  waiting_for_ack = true;
  host = send_package (some p) true c.host;
}

-- The end of the constructor: `help`, the watcher, and the greeting.
unfoldable pub greet : Bytes → Bytes → Controller → Controller
greet name version c =
    let width = if ltb c.max_command_name_length 4 then 4 else c.max_command_name_length in
    let (id, host) = get_next_package_id c.host in
    send_and_wait
      (construct_package (codes "connection-management") (greeting c.display_stati id name version))
      (record c {
        max_command_name_length = width;
        commands = insert (codes "help") (help help_parser 0) c.commands;
        watching = true;
        host = host;
      })

abbrev greeted : Bytes → Bytes → Option Controller → Option Controller
greeted name version none = none
greeted name version (some c) = some (greet name version c)

abbrev pub blank_controller : Host → Bool → Controller
blank_controller host display_stati = record {
  host = host;
  commands = [];
  display_stati = display_stati;
  last_send_package_id = 0;
  waiting_for_ack = false;
  max_command_name_length = 0;
  watching = false;
  reading = false;
  running = true;
  completion = 0;
}

-- `Controller(serverSocket, displayStati)`, on the host that AbstractHost has made; the name and
-- version of the project come from the build.
unfoldable pub new_controller :
    Host → Bool → Option (List SpecEntry) → Bytes → Bytes → Option Controller
new_controller host display_stati spec name version =
    greeted name version (parse_spec_file spec (blank_controller host display_stati))

unfoldable pub handle_acknowledgement : Package → Controller → Option Controller
handle_acknowledgement p c =
    if c.waiting_for_ack && p.id == c.last_send_package_id
    then start_readline (record c { waiting_for_ack = false })
    else some c

-- The switch of `handlePackage`. `handleCommand` ends without the string that it should return, which
-- is a fault.
unfoldable pub handle_typed : PackageType → Package → Controller → Option Controller
handle_typed command p c = none
handle_typed acknowledgement p c = handle_acknowledgement p c
handle_typed status_change p c = some c
handle_typed connection_management p c = some c
handle_typed unknown p c = some c
handle_typed request p c = some c
handle_typed response p c = some c

unfoldable pub handle_package : Package → Controller → Option Controller
handle_package p c = handle_typed p.type p c

unfoldable pub socket_closed : Controller → Option Controller
socket_closed c = quit c

unfoldable pub retrieve_command_parser : Bytes → Controller → Option AnyParser
retrieve_command_parser name c = find name c.commands

-- A pointer to the parser leads into the table.
unfoldable pub store_parser : Bytes → AnyParser → Map Bytes AnyParser → Map Bytes AnyParser
store_parser name p [] = []
store_parser name p ((other, q) ∷ m) =
    if bytes_eq other name then (other, p) ∷ m else (other, q) ∷ store_parser name p m

-- The parser of `help` prints, and makes no package.
unfoldable pub construct_any :
    (List PoptOption → List Bytes → PoptAnswer)
    → List Bytes
    → Bytes
    → AnyParser
    → Option Package × AnyParser
construct_any popt argv id (help p n) = (none, help p n)
construct_any popt argv id (plain p) =
    let (made, q) = construct_package_from_line popt argv id p in (made, plain q)

abbrev sent : Package → Option Controller → Option Controller
sent p none = none
sent p (some c) = some (send_and_wait p c)

unfoldable pub send_command : Option Package → Controller → Option Controller
send_command none c = some c
send_command (some p) c = sent p (stop_readline c)

-- The line as popt cuts it; `none` is a line that it cannot cut.
unfoldable pub handle_words :
    (List PoptOption → List Bytes → PoptAnswer)
    → Option (List Bytes)
    → Controller
    → Option Controller
handle_words popt none c = some c
handle_words popt (some []) c = some c
handle_words popt (some (word ∷ words)) c = elim (retrieve_command_parser word c) [
  | none ↦ some c
  | some p ↦
      let (id, host) = get_next_package_id c.host in
      let (made, q) = construct_any popt (word ∷ words) id p in
      send_command made (record c { host = host; commands = store_parser word q c.commands })
]

-- `none` is the end of the input.
unfoldable pub handle_line :
    (List PoptOption → List Bytes → PoptAnswer)
    → (Bytes → Option (List Bytes))
    → Option Bytes
    → Controller
    → Option Controller
handle_line popt cut none c = quit c
handle_line popt cut (some line) c =
    if is_empty line then some c else handle_words popt (cut line) c
