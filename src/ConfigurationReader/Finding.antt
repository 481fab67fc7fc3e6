-- ===== src/ConfigurationReader/Finding.antt =====
-- shared/configuration_reader.cpp: an entry of the configuration file is found.
use yonderboy.Prelude.{
  Option, none, some, List, [], ◌∷◌, ◌≡◌, refl, ◌∙◌, arith, Bytes, inl, inr, Option-cases,
  bytes_key, pair_key, if◌then◌else◌,
}
use yonderboy.Prelude.Map.{find, insert, find-insert}
use yonderboy.FileStream.{lines_of}
use yonderboy.ConfigurationManager.{EntriesMap, get_key_pair}
use yonderboy.ConfigurationReader.{parse_key_value_record, insert_lines, retrieve_entries}

abbrev key_of : Bytes → Bytes × Bytes
key_of line = get_key_pair (parse_key_value_record line).0

-- The value of the first line with the key.
unfoldable pub first_value : Bytes × Bytes → List Bytes → Option Bytes
first_value key [] = none
first_value key (line ∷ lines) =
    if pair_key.beq (key_of line) key
    then some (parse_key_value_record line).1
    else first_value key lines

abbrev or_first : Option Bytes → Option Bytes → Option Bytes
or_first none o = o
or_first (some v) o = some v

insert-first :
    (k key : Bytes × Bytes) (v : Bytes) (m : EntriesMap) (rest : Option Bytes)
    → or_first (find key (insert k v m)) rest
      ≡ or_first (find key m) (if pair_key.beq k key then some v else rest)
insert-first k key v m rest = elim (Option-cases (find key m)) [
  | inl e ↦ rw (find-insert k key v m, e) (ground arith)
  | inr (w, e) ↦ rw (find-insert k key v m, e) (ground arith)
]

lines-first :
    (key : Bytes × Bytes) (lines : List Bytes) (m : EntriesMap)
    → find key (insert_lines lines m) ≡ or_first (find key m) (first_value key lines)
unfolding insert_lines first_value
lines-first key [] m = ground arith
lines-first key (line ∷ lines) m =
    let (k, v) = parse_key_value_record line in
    lines-first key lines (insert (get_key_pair k) v m)
    ∙ insert-first (get_key_pair k) key v m (first_value key lines)

-- The entry of a file that can be read is the first line with its key, and with no file every entry
-- is missing.
pub retrieve_entries-first :
    (key : Bytes × Bytes) (text : Bytes)
    → (find key (retrieve_entries (some text)).0 ≡ first_value key (lines_of text))
      × (find key (retrieve_entries none).0 ≡ none)
unfolding retrieve_entries find
retrieve_entries-first key text = (lines-first key (lines_of text) [], refl)
