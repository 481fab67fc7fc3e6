-- ===== src/FileRecords.antt =====
-- daemon/src/file_persistence_manager.cpp: how a record stands on a line of a file
-- (`parseListRecord`, `parseKeyValueRecord`, `parseTableRecord` and the `write...Record`).
pub mod RoundTrips
use yonderboy.Prelude.{
  ℕ, zero, suc, ◌+◌, ◌-◌, Bool, true, false, Option, none, some, List, [], ◌∷◌, ◌++◌, Bytes, length,
  take, drop, if◌then◌else◌,
}
use yonderboy.Prelude.Text.{codes, find_byte, is_empty}
use yonderboy.Package.{trim_string}
use yonderboy.Macros.{StorageType, invalid_storage, list_storage, key_value_storage, table_storage}

-- `ListRecord`, `KeyValueRecord` and `TableRecord`, told apart.
pub data Record : Type 0 where
  list_record : Bytes → Record
  key_value_record : Bytes → Bytes → Record
  table_record : List Bytes → Record

unfoldable pub parse_list_record : Bytes → Bytes
parse_list_record raw = raw

unfoldable pub parse_key_value_record : Bytes → Bytes × Bytes
parse_key_value_record raw = elim (find_byte b'=' raw) [
  | some n ↦ (trim_string (take n raw), trim_string (drop (n + 1) raw))
  | none ↦ (trim_string raw, [])
]

-- Each round takes an entry and its tab off the text, so the text's length is fuel enough.
unfoldable pub table_entries : ℕ → Bytes → List Bytes
table_entries zero raw = raw ∷ []
table_entries (suc fuel) raw = elim (find_byte b'\t' raw) [
  | none ↦ raw ∷ []
  | some n ↦ take n raw ∷ table_entries fuel (drop (n + 1) raw)
]

unfoldable pub parse_table_record : Bytes → List Bytes
parse_table_record raw = table_entries (length raw) raw

-- The switch of `retrieveRecord`; with another number nothing is parsed.
unfoldable pub parse_record : StorageType → Bytes → Option Record
parse_record list_storage raw = some (list_record (parse_list_record raw))
parse_record key_value_storage raw =
    let (k, v) = parse_key_value_record raw in some (key_value_record k v)
parse_record table_storage raw = some (table_record (parse_table_record raw))
parse_record invalid_storage raw = none

unfoldable pub joined_entries : List Bytes → Bytes
joined_entries [] = []
joined_entries (e ∷ es) = e ++ (b'\t' ∷ joined_entries es)

-- `data.erase(data.length()-1,1)` throws on an empty text: `none`.
unfoldable pub table_text : List Bytes → Option Bytes
table_text entries =
    let text = joined_entries entries in
    if is_empty text then none else some (take (length text - 1) text)

-- What the three `write...Record` hand to `writeRecord`.
unfoldable pub record_text : Record → Option Bytes
record_text (list_record r) = some r
record_text (key_value_record k v) = some (k ++ (codes " = " ++ v))
record_text (table_record entries) = table_text entries

abbrev pub type_of : Record → StorageType
type_of (list_record r) = list_storage
type_of (key_value_record k v) = key_value_storage
type_of (table_record entries) = table_storage
