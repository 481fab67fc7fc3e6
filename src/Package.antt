-- ===== src/Package.antt =====
-- daemon/src/package.cpp and package.h: the packages that the programs exchange, a key-value map
-- with an optional JSON line. shared/package.cpp, which the clients use, is the same code.
pub mod Trim
pub mod Wire
pub mod Lines
pub mod Validity
use yonderboy.Prelude.{
  ℕ, zero, suc, ◌+◌, ◌-◌, Bool, true, false, not, ◌&&◌, Option, none, some, List, [], ◌∷◌, ◌++◌,
  ◌≡◌, refl, Bytes, length, take, drop, ltb, ◌==◌, if◌then◌else◌, is_some, bytes_eq, bytes_key,
}
use yonderboy.Prelude.Text.{
  codes, is_empty, find_byte, find_first_not_of, find_last_not_of, read_u64, decimal,
}
use yonderboy.Prelude.Map.{Map, find, insert, erase}
use yonderboy.Macros.{
  PackageType, unknown, command, status_change, request, response, acknowledgement,
  connection_management,
}

abbrev pub KeyValueMap : Type 0
KeyValueMap = Map Bytes Bytes

pub record Package : Type 0 where
  pub type : PackageType
  pub valid : Bool
  pub acknowledgement_needed : Bool
  pub id : ℕ
  pub has_valid_id : Bool
  pub json : Bytes
  pub key_value_map : KeyValueMap

unfoldable pub value_of : Bytes → KeyValueMap → Bytes
value_of key m = elim (find key m) [ some v ↦ v | none ↦ [] ]

abbrev pub get_value : Package → Bytes → Bytes
get_value p key = value_of key p.key_value_map

unfoldable pub is_set : Package → Bytes → Bool
is_set p key = is_some (find key p.key_value_map)

unfoldable pub has_value : Package → Bytes → Bool
unfolding is_set value_of
has_value p key = if is_set p key then ltb 0 (length (get_value p key)) else false

abbrev pub has_json : Package → Bool
has_json p = not (is_empty p.json)

trim_left : Bytes → Bytes
trim_left line = elim (find_first_not_of line) [ some n ↦ drop n line | none ↦ [] ]

trim_right : Bytes → Bytes
trim_right line = elim (find_last_not_of line) [ some n ↦ take (n + 1) line | none ↦ [] ]

unfoldable pub trim_string : Bytes → Bytes
unfolding trim_left trim_right find_first_not_of find_last_not_of
trim_string line = trim_right (trim_left line)

pub serialize_entries : KeyValueMap → Bytes
serialize_entries [] = []
serialize_entries ((k, v) ∷ m) = k ++ (codes " = " ++ (v ++ (b'\n' ∷ serialize_entries m)))

unfoldable pub serialize : Package → Bytes
unfolding serialize_entries
serialize p = serialize_entries p.key_value_map ++ (if has_json p then p.json ++ b'\n' ∷ [] else [])

-- `line[0]`; past the end stands a zero.
abbrev first_byte : Bytes → ℕ
first_byte [] = 0
first_byte (c ∷ cs) = c

-- `line[line.length()-1]` of a line with a character in it.
abbrev last_byte : Bytes → ℕ
last_byte [] = 0
last_byte (c ∷ []) = c
last_byte (c ∷ d ∷ cs) = last_byte (d ∷ cs)

is_json : Bytes → Bool
is_json line = first_byte line == b'{' && last_byte line == b'}'

-- One round of the parsing loop, on a line that is no JSON.
insert_line : Bytes → KeyValueMap → KeyValueMap
insert_line line m = elim (find_byte b'=' line) [
  | some n ↦ insert (trim_string (take n line)) (trim_string (drop (n + 1) line)) m
  | none ↦ insert (trim_string line) [] m
]

parse_line : Bytes → KeyValueMap × Bytes → KeyValueMap × Bytes
unfolding is_json insert_line
parse_line line (m, json) = if is_json line then (m, line) else (insert_line line m, json)

-- Each round takes a line and its newline off the text, so the text's length is fuel enough.
parse_lines : ℕ → Bytes → KeyValueMap × Bytes → KeyValueMap × Bytes
parse_lines zero text out = out
parse_lines (suc fuel) text out = elim (find_byte b'\n' text) [
  | none ↦ out
  | some n ↦ parse_lines fuel (drop (n + 1) text) (parse_line (take n text) out)
]

unfoldable pub construct_key_value_map : Bytes → KeyValueMap × Bytes
unfolding parse_lines parse_line find_byte insert trim_string
construct_key_value_map text = parse_lines (length text) text ([], [])

unfoldable pub named_type : Bytes → PackageType
named_type t =
    if bytes_eq t (codes "command")
    then command
    else if bytes_eq t (codes "status-change")
    then status_change
    else if bytes_eq t (codes "request")
    then request
    else if bytes_eq t (codes "response")
    then response
    else if bytes_eq t (codes "ack")
    then acknowledgement
    else if bytes_eq t (codes "connection-management")
    then connection_management
    else unknown

unfoldable pub extract_type : KeyValueMap → PackageType
unfolding named_type
extract_type m = elim (find (codes "type") m) [ none ↦ unknown | some t ↦ named_type t ]

unfoldable pub convert_id : Package → Package
unfolding value_of
convert_id p =
    let (n, good) = read_u64 p.id (get_value p (codes "id")) in
    record p { id = n; has_valid_id = good }

-- The switch of `initialize`.
unfoldable pub set_validity : PackageType → Package → Package
unfolding is_set
set_validity command p = record p {
  valid = is_set p (codes "command");
  acknowledgement_needed = p.has_valid_id;
}
set_validity status_change p = record p { valid = is_set p (codes "status") }
set_validity request p = record p { valid = is_set p (codes "request-type") && p.has_valid_id }
set_validity response p = record p { valid = p.has_valid_id }
set_validity acknowledgement p = record p { valid = p.has_valid_id }
set_validity connection_management p = record p {
  valid = is_set p (codes "command") && p.has_valid_id;
  acknowledgement_needed = true;
}
set_validity unknown p = record p { valid = false; acknowledgement_needed = false }

unfoldable pub initialize : Package → Package
unfolding extract_type convert_id set_validity
initialize p =
    let typed = record p { type = extract_type p.key_value_map; acknowledgement_needed = false } in
    set_validity (extract_type p.key_value_map) (convert_id typed)

abbrev pub blank_package : Package
blank_package = record {
  type = unknown;
  valid = false;
  acknowledgement_needed = false;
  id = 0;
  has_valid_id = false;
  json = [];
  key_value_map = [];
}

-- `Package(std::string)`
unfoldable pub parse_package : Bytes → Package
unfolding construct_key_value_map initialize
parse_package text =
    let (m, j) = construct_key_value_map text in
    initialize (record blank_package { key_value_map = m; json = j })

-- `Package(std::map*, std::string)`; `none` is the null pointer.
unfoldable pub make_package : Option KeyValueMap → Bytes → Package
unfolding initialize
make_package none json = initialize (record blank_package { json = json })
make_package (some m) json = initialize (record blank_package { key_value_map = m; json = json })

-- `Package(Package*)`: the identifier is read again, over the copied one.
unfoldable pub copy_package : Package → Package
unfolding initialize
copy_package p = initialize p
