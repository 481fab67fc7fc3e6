-- ===== src/FilePersistenceManager.antt =====
-- daemon/src/file_persistence_manager.cpp: each storage is a file with a record on each line. A
-- record that is deleted or replaced is overwritten by blanks, and a new one goes to the end.
pub mod Positions
pub mod Retrieval
pub mod Records
pub mod Compaction
use yonderboy.Prelude.{
  ℕ, zero, suc, ◌+◌, Bool, true, false, not, ◌&&◌, ◌||◌, Option, none, some, List, [], ◌∷◌, ◌++◌,
  Bytes, bytes_eq, bytes_key, pair_key, nat_key, length, drop, ◌==◌, if◌then◌else◌,
}
use yonderboy.Prelude.Map.{Map, find, insert, erase, set}
use yonderboy.Prelude.Text.{is_empty}
use yonderboy.Prelude.Signed.{ℤ, pos, negsuc, int_key}
use yonderboy.Package.{trim_string}
use yonderboy.Macros.{KeyType, invalid_key, StorageType}
use yonderboy.FileStream.{
  Stream, line_of, seekg, getline, tellg, seekp, seekp_end, tellp, write, clear, open_stream,
}
use yonderboy.FileStream.Positions.{blanks}
use yonderboy.FileRecords.{Record, parse_record, record_text}
use yonderboy.PersistentStorage.{PersistentStorage, Backend, store}
use yonderboy.PersistenceManager.{FileInformation, Manager, get_storage_type}

unfoldable pub construct_path : Bytes → Bytes → Manager → Bytes
construct_path group id m =
    let path = m.base_folder ++ (b'/' ∷ group) in if is_empty id then path else path ++ (b'/' ∷ id)

-- What `stat` says of the group's directory.
pub data Stat : Type 0 where
  directory no_entry other : Stat

-- `made` is whether `mkdir` succeeds.
unfoldable pub create_group_directory : Stat → Bool → Bool
create_group_directory directory made = true
create_group_directory no_entry made = made
create_group_directory other made = false

abbrev text_on : Bytes → Map Bytes Bytes → Bytes
text_on path disk = elim (find path disk) [ none ↦ [] | some text ↦ text ]

-- Opening for appending makes the file; `opens` is whether the second `fstream` is good.
unfoldable pub open_file : Bool → Bytes → Map Bytes Bytes → Option Stream × Map Bytes Bytes
open_file opens path disk =
    let made = insert path [] disk in
    if opens then (some (open_stream (text_on path made)), made) else (none, made)

-- A line that `find_first_not_of(" \n")` finds nothing in.
abbrev is_blank_line : Bytes → Bool
is_blank_line [] = true
is_blank_line (c ∷ cs) = (c == b' ' || c == b'\n') && is_blank_line cs

-- Each round takes a line off the text, so its length and one more are fuel enough: the last line
-- has no newline.
unfoldable pub compact_loop : ℕ → Bytes → Bytes
compact_loop zero input = []
compact_loop (suc fuel) input =
    let (line, found) = line_of input in
    let rest = if found then compact_loop fuel (drop (length line + 1) input) else [] in
    if is_blank_line line then rest else line ++ (b'\n' ∷ rest)

unfoldable pub compact_text : Bytes → Bytes
compact_text text = compact_loop (suc (length text)) text

unfoldable pub compact_file : Bytes → Map Bytes Bytes → Map Bytes Bytes
compact_file path disk = set path (compact_text (text_on path disk)) disk

-- What the stream holds is on the disk when it is closed.
unfoldable pub close_file : Bool → FileInformation → Manager → Manager
close_file run_compaction file m =
    let closed = set file.path file.stream.content m.disk in
    record m {
      disk = if run_compaction && m.use_compaction then compact_file file.path closed else closed;
    }

-- The file of a storage and the pointer to it.
unfoldable pub file_of : Bytes → Bytes → Manager → Option (ℕ × FileInformation)
file_of group id m = elim (find (group, id) m.files) [
  | none ↦ none
  | some q ↦ elim (find q m.file_heap) [ none ↦ none | some file ↦ some (q, file) ]
]

abbrev pub set_file : ℕ → FileInformation → Manager → Manager
set_file q file m = record m { file_heap = set q file m.file_heap }

unfoldable pub destroy_storage : Bytes → Bytes → Manager → Manager
destroy_storage group id m = elim (file_of group id m) [
  | none ↦ m
  | some (q, file) ↦
      let closed = close_file true file m in
      record closed { files = erase (group, id) closed.files; file_heap = erase q closed.file_heap }
]

unfoldable pub next_key : Bytes → Bytes → Manager → KeyType × Manager
next_key group id m = elim (file_of group id m) [
  | none ↦ (invalid_key, m)
  | some (q, file) ↦
      (pos file.next_key, set_file q (record file { next_key = file.next_key + 1 }) m)
]

-- The part of `retrieveRecord` that reads the line of a key.
unfoldable pub read_key : KeyType → FileInformation → Option Bytes × FileInformation
read_key key file = elim (find key file.key_positions) [
  | none ↦ (none, file)
  | some p ↦
      let (line, stream) = getline (seekg p file.stream) in (line, record file { stream = stream })
]

unfoldable pub parsed : StorageType → Option Bytes → Option Record
parsed type none = none
parsed type (some raw) = parse_record type raw

unfoldable pub retrieve_record : Bytes → Bytes → KeyType → Manager → Option Record × Manager
retrieve_record group id key m = elim (file_of group id m) [
  | none ↦ (none, m)
  | some (q, file) ↦
      let (line, file') = read_key key file in
      (parsed (get_storage_type group id m) line, set_file q file' m)
]

-- The second half of `deleteRecord`, on the line that was read.
unfoldable pub overwrite : ℤ → Option Bytes × Stream → Stream
overwrite (pos p) (some old, s) = write (blanks (length old)) (seekp p s)
overwrite (negsuc p) (some old, s) = s
overwrite p (none, s) = s

unfoldable pub delete_key : KeyType → FileInformation → FileInformation
delete_key key file = elim (find key file.key_positions) [
  | none ↦ file
  | some p ↦ record file { stream = overwrite p (getline (seekg p file.stream)) }
]

unfoldable pub delete_record : Bytes → Bytes → KeyType → Manager → Manager
delete_record group id key m = elim (file_of group id m) [
  | none ↦ m
  | some (q, file) ↦ set_file q (delete_key key file) m
]

-- The second half of `writeRecord`: the text and a newline go to the end.
unfoldable pub append_record : KeyType → Bytes → FileInformation → FileInformation
append_record key text file =
    let s = seekp_end file.stream in
    record file {
      stream = write (b'\n' ∷ []) (write text s);
      key_positions = insert key (tellp s) (erase key file.key_positions);
    }

unfoldable pub write_record : Bytes → Bytes → KeyType → Bytes → Manager → Manager
write_record group id key text m = elim (file_of group id m) [
  | none ↦ m
  | some (q, file) ↦ set_file q (append_record key text (delete_key key file)) m
]

-- A record that cannot be written throws: `none`.
unfoldable pub write_typed_record : Bytes → Bytes → KeyType → Record → Manager → Option Manager
write_typed_record group id key r m = elim (record_text r) [
  | none ↦ none
  | some text ↦ some (write_record group id key text m)
]

-- The destructor closes every file.
unfoldable pub close_files : Map (Bytes × Bytes) ℕ → Manager → Manager
close_files [] m = m
close_files ((key, q) ∷ files) m = close_files files (elim (find q m.file_heap) [
  | none ↦ m
  | some file ↦
      let closed = close_file true file m in record closed { file_heap = erase q closed.file_heap }
])
