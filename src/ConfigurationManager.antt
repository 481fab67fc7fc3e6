-- ===== src/ConfigurationManager.antt =====
-- daemon/src/configuration_manager.cpp: the entries of the configuration file under a namespace and
-- an identifier, and how they are read. `wordexp` is outside: what it makes of a text is an argument.
pub mod Values
pub mod Numbers
use yonderboy.Prelude.{
  ℕ, zero, suc, ◌+◌, Bool, true, false, not, ◌&&◌, ◌||◌, Option, none, some, List, [], ◌∷◌, ◌++◌,
  Bytes, bytes_key, pair_key, bytes_eq, take, drop, if◌then◌else◌, ◌==◌, is_some, ltb, ◌^◌, ◌-◌,
}
use yonderboy.Prelude.Text.{codes, find_byte, is_empty, read_digits, is_digit, skip_spaces}
use yonderboy.Prelude.Map.{Map, find, insert}
use yonderboy.Prelude.Signed.{ℤ, pos, negsuc}
use yonderboy.Macros.{LogLevel, debug, info, warning, error, fatal}
use yonderboy.Package.{trim_string}

abbrev pub EntriesMap : Type 0
EntriesMap = Map (Bytes × Bytes) Bytes

-- `path.find_last_of('/')`
unfoldable pub find_last_byte : ℕ → Bytes → Option ℕ
find_last_byte b [] = none
find_last_byte b (c ∷ cs) = elim (find_last_byte b cs) [
  | some n ↦ some (suc n)
  | none ↦ if c == b then some 0 else none
]

unfoldable pub get_base_path : Bytes → Bytes
unfolding find_last_byte
get_base_path path = elim (find_last_byte b'/' path) [ none ↦ [] | some n ↦ take n path ]

unfoldable pub get_file_name : Bytes → Bytes
unfolding find_last_byte
get_file_name path = elim (find_last_byte b'/' path) [ none ↦ path | some n ↦ drop (n + 1) path ]

unfoldable pub get_key_pair : Bytes → Bytes × Bytes
unfolding find_byte
get_key_pair key = elim (find_byte b'.' key) [
  | none ↦ ([], key)
  | some n ↦ (take n key, drop (n + 1) key)
]

-- The records of the storage, in the order of its keys.
unfoldable pub retrieve_entries : List (Bytes × Bytes) → EntriesMap → EntriesMap
unfolding get_key_pair insert
retrieve_entries [] m = m
retrieve_entries ((k, v) ∷ records) m = retrieve_entries records (insert (get_key_pair k) v m)

unfoldable pub is_set : Bytes → Bytes → EntriesMap → Bool
unfolding find
is_set space id m = is_some (find (space, id) m)

unfoldable pub retrieve : Bytes → Bytes → Bytes → EntriesMap → Bytes
unfolding find
retrieve space id default m = elim (find (space, id) m) [ none ↦ default | some v ↦ v ]

abbrev pub starts_with_slash : Bytes → Bool
starts_with_slash [] = false
starts_with_slash (c ∷ cs) = c == b'/'

abbrev pub joined_words : List Bytes → Bytes
joined_words [] = []
joined_words (w ∷ ws) = w ++ joined_words ws

-- `wordexp` gives the words of a text, or fails; `working_dir` is the member.
unfoldable pub retrieve_as_path :
    (Bytes → Option (List Bytes)) → Bytes → Bytes → Bytes → Bytes → EntriesMap → Bytes
unfolding find
retrieve_as_path wordexp working_dir space id default m = elim (find (space, id) m) [
  | none ↦ default
  | some v ↦
      let result : Bytes = elim (wordexp v) [
        | none ↦ default
        | some [] ↦ default
        | some (w ∷ ws) ↦ joined_words (w ∷ ws)
      ] in
      if starts_with_slash result then result else working_dir ++ result
]

unfoldable pub value_as_bool : Bytes → Bool → Bool
unfolding trim_string
value_as_bool value default =
    let v = trim_string value in
    if bytes_eq v (codes "true") || (bytes_eq v (codes "t") || bytes_eq v (codes "1"))
    then true
    else default

unfoldable pub retrieve_as_bool : Bytes → Bytes → Bool → EntriesMap → Bool
unfolding value_as_bool find
retrieve_as_bool space id default m = elim (find (space, id) m) [
  | none ↦ default
  | some v ↦ value_as_bool v default
]

unfoldable pub value_as_log_level : Bytes → LogLevel → LogLevel
unfolding trim_string
value_as_log_level value default =
    let v = trim_string value in
    if bytes_eq v (codes "debug")
    then debug
    else if bytes_eq v (codes "info")
    then info
    else if bytes_eq v (codes "warning")
    then warning
    else if bytes_eq v (codes "error")
    then error
    else if bytes_eq v (codes "fatal")
    then fatal
    else default

unfoldable pub retrieve_as_log_level : Bytes → Bytes → LogLevel → EntriesMap → LogLevel
unfolding value_as_log_level find
retrieve_as_log_level space id default m = elim (find (space, id) m) [
  | none ↦ default
  | some v ↦ value_as_log_level v default
]

-- `std::istream >> result` for `long long`: the largest or smallest value where a number does not fit.
unfoldable pub read_signed : Bool → Bytes → ℤ
read_signed minus [] = pos 0
read_signed minus (c ∷ cs) =
    let v = read_digits 0 (c ∷ cs) in
    if not (is_digit c)
    then pos 0
    else if minus
    then (if v == 0 then pos 0 else if ltb (2 ^ 63) v then negsuc (2 ^ 63 - 1) else negsuc (v - 1))
    else if ltb (2 ^ 63 - 1) v
    then pos (2 ^ 63 - 1)
    else pos v

-- Behind the blanks; with nothing left the value stays as it was.
unfoldable pub read_first : ℤ → Bytes → ℤ
read_first default [] = default
read_first default (c ∷ cs) =
    if c == b'-'
    then read_signed true cs
    else if c == b'+'
    then read_signed false cs
    else read_signed false (c ∷ cs)

unfoldable pub value_as_long_long : Bytes → ℤ → ℤ
value_as_long_long value default = read_first default (skip_spaces value)

unfoldable pub retrieve_as_long_long : Bytes → Bytes → ℤ → EntriesMap → ℤ
retrieve_as_long_long space id default m = elim (find (space, id) m) [
  | none ↦ default
  | some v ↦ value_as_long_long v default
]
