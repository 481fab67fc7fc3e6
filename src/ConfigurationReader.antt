-- ===== src/ConfigurationReader.antt =====
-- shared/configuration_reader.cpp and configuration_finder.cpp: the configuration file of a client.
-- The lookups that are the same code as the daemon's are in ConfigurationManager. `wordexp` and
-- `access` are arguments.
pub mod Finding
use yonderboy.Prelude.{
  ℕ, ◌+◌, Bool, true, false, ◌&&◌, Option, none, some, List, [], ◌∷◌, ◌++◌, Bytes, bytes_key,
  pair_key, take, drop, if◌then◌else◌,
}
use yonderboy.Prelude.Text.{codes, find_byte}
use yonderboy.Prelude.Map.{Map, find, insert}
use yonderboy.Package.{trim_string}
use yonderboy.FileStream.{lines_of}
use yonderboy.ConfigurationManager.{EntriesMap, get_key_pair, joined_words, starts_with_slash}

unfoldable pub parse_key_value_record : Bytes → Bytes × Bytes
parse_key_value_record line = elim (find_byte b'=' line) [
  | some n ↦ (trim_string (take n line), trim_string (drop (n + 1) line))
  | none ↦ (trim_string line, [])
]

unfoldable pub insert_lines : List Bytes → EntriesMap → EntriesMap
insert_lines [] m = m
insert_lines (line ∷ lines) m =
    let (k, v) = parse_key_value_record line in insert_lines lines (insert (get_key_pair k) v m)

-- The text of the file, or `none` if it cannot be opened; the flag is `ready`.
unfoldable pub retrieve_entries : Option Bytes → EntriesMap × Bool
retrieve_entries none = ([], false)
retrieve_entries (some text) = (insert_lines (lines_of text) [], true)

-- The words of the expansion are written behind the default.
unfoldable pub retrieve_as_path :
    (Bytes → Option (List Bytes)) → Bytes → Bytes → Bytes → Bytes → EntriesMap → Bytes
retrieve_as_path wordexp working_dir space id default m = elim (find (space, id) m) [
  | none ↦ default
  | some v ↦
      let result : Bytes = elim (wordexp v) [
        | none ↦ default
        | some words ↦ default ++ joined_words words
      ] in
      if starts_with_slash result then result else working_dir ++ result
]

pub record ConfigurationReader : Type 0 where
  pub entries : EntriesMap
  pub ready : Bool
  pub working_dir : Bytes

-- `ConfigurationReader(configFile)`
unfoldable pub new_reader : (Bytes → Option (List Bytes)) → Option Bytes → ConfigurationReader
new_reader wordexp text =
    let (entries, ready) = retrieve_entries text in
    record {
      entries = entries;
      ready = ready;
      working_dir = retrieve_as_path wordexp [] (codes "general") (codes "working-dir") [] entries;
    }

abbrev pub configuration_files : List Bytes
configuration_files =
    codes "$XDG_CONFIG_HOME/yonderboy/config"
    ∷ codes "$HOME/.config/yonderboy/config"
    ∷ codes "$HOME/.yonderboyrc"
    ∷ codes "/etc/yonderboy/config"
    ∷ []

-- The first word of the expansion, if it can be read.
unfoldable pub readable_file : (Bytes → Option (List Bytes)) → (Bytes → Bool) → Bytes → Option Bytes
readable_file wordexp access file = elim (wordexp file) [
  | none ↦ none
  | some [] ↦ none
  | some (word ∷ words) ↦ if access word then some word else none
]

unfoldable pub find_file :
    (Bytes → Option (List Bytes)) → (Bytes → Bool) → List Bytes → Option Bytes
find_file wordexp access [] = none
find_file wordexp access (file ∷ files) = elim (readable_file wordexp access file) [
  | some found ↦ some found
  | none ↦ find_file wordexp access files
]

-- `findConfigurationFile`; `none` is the exception.
unfoldable pub find_configuration_file :
    (Bytes → Option (List Bytes)) → (Bytes → Bool) → Option Bytes
find_configuration_file wordexp access = find_file wordexp access configuration_files
