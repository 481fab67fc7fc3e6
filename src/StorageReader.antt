-- ===== src/StorageReader.antt =====
-- daemon/src/file_persistence_manager.cpp (`readRecordsIntoStorage`): the records of a file become
-- the records of its storage. `q` is the pointer to the file.
use yonderboy.Prelude.{
  ℕ, zero, suc, Bool, true, false, none, some, [], ◌∷◌, Bytes, nat_key, length, ◌==◌, if◌then◌else◌,
}
use yonderboy.Prelude.Map.{find, insert}
use yonderboy.Prelude.Signed.{ℤ, pos, int_key}
use yonderboy.Package.{trim_string}
use yonderboy.Macros.{KeyType}
use yonderboy.FileStream.{Stream, seekg, getline, tellg, clear}
use yonderboy.PersistentStorage.{PersistentStorage, Backend, store}
use yonderboy.PersistenceManager.{FileInformation, Manager}
use yonderboy.FilePersistenceManager.{set_file}

abbrev pub set_stream : ℕ → Stream → FileInformation → Manager → Manager
set_stream q s file m = set_file q (record file { stream = s }) m

-- A line with nothing but blanks, or a comment.
unfoldable pub is_skipped : Bytes → Bool
is_skipped raw = elim (trim_string raw) [ [] ↦ true | c ∷ cs ↦ c == b'#' ]

unfoldable pub insert_position : ℕ → KeyType → ℤ → Manager → Manager
insert_position q key start m = elim (find q m.file_heap) [
  | none ↦ m
  | some file ↦ set_file q (record file { key_positions = insert key start file.key_positions }) m
]

module _ {R : Type 0} (b : Backend Manager R) (parse : Bytes → R) (q : ℕ) where
  -- The body of the loop behind the reading of a line.
  unfoldable pub keep_line :
      ℤ → Bytes → Manager × PersistentStorage R → Manager × PersistentStorage R
  keep_line start raw (m, s) =
      if is_skipped raw
      then (m, s)
      else let (key, (m', s')) = store b (parse raw) false (m, s) in
        (insert_position q key start m', s')

  -- Each round takes a line off the text, so its length and one more are fuel enough.
  unfoldable pub read_loop : ℕ → ℤ → Manager × PersistentStorage R → Manager × PersistentStorage R
  read_loop zero start p = p
  read_loop (suc fuel) start (m, s) = elim (find q m.file_heap) [
    | none ↦ (m, s)
    | some file ↦ elim file.stream.eof [
      | true ↦ (m, s)
      | false ↦
          let (line, stream) = getline (seekg start file.stream) in
          elim line [
            | none ↦ (set_stream q stream file m, s)
            | some raw ↦
                let (next, stream') = tellg stream in
                read_loop fuel next (keep_line start raw (set_stream q stream' file m, s))
          ]
    ]
  ]

  unfoldable pub clear_stream : Manager → Manager
  clear_stream m = elim (find q m.file_heap) [
    | none ↦ m
    | some file ↦ set_stream q (clear file.stream) file m
  ]

  unfoldable pub text_length : Manager → ℕ
  text_length m = elim (find q m.file_heap) [ none ↦ 0 | some file ↦ length file.stream.content ]

  unfoldable pub read_records_into_storage :
      Manager × PersistentStorage R → Manager × PersistentStorage R
  read_records_into_storage (m, s) =
      let (m', s') = read_loop (suc (text_length m)) (pos 0) (m, s) in (clear_stream m', s')
