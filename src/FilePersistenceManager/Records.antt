-- ===== src/FilePersistenceManager/Records.antt =====
-- daemon/src/file_persistence_manager.cpp: records of the three kinds are written to the file of a
-- storage and read back.
use yonderboy.Prelude.{
  ℕ, some, ◌≡◌, ◌≢◌, refl, sym, ap, ◌∙◌, arith, Bytes, bytes_key, pair_key, nat_key,
}
use yonderboy.Prelude.Map.{find, find-set, beq_refl}
use yonderboy.Macros.{KeyType}
use yonderboy.Package.Wire.{Lacks}
use yonderboy.FileRecords.{Record, record_text, parse_record, type_of}
use yonderboy.FileRecords.RoundTrips.{IsStorable, parse_record-text}
use yonderboy.PersistenceManager.{FileInformation, Manager, get_storage_type}
use yonderboy.FilePersistenceManager.{
  read_key, delete_key, append_record, file_of, set_file, retrieve_record, write_record,
  write_typed_record, parsed,
}
use yonderboy.FilePersistenceManager.Positions.{IsSound}
use yonderboy.FilePersistenceManager.Retrieval.{Written, append_record-Written}

-- The storage's file is open, and sound.
pub record HasFile (group id : Bytes) (m : Manager) : Type 0 where
  pub pointer : ℕ
  pub file : FileInformation
  pub is_open : file_of group id m ≡ some (pointer, file)
  pub sound : IsSound file

file_of-files :
    (group id : Bytes) (q : ℕ) (file : FileInformation) (m : Manager)
    → file_of group id m ≡ some (q, file)
    → find (group, id) m.files ≡ some q
unfolding file_of
file_of-files group id q file m h = ground arith

file_of-set_file :
    (group id : Bytes) (q : ℕ) (file g : FileInformation) (m : Manager)
    → file_of group id m ≡ some (q, file)
    → file_of group id (set_file q g m) ≡ some (q, g)
unfolding file_of
file_of-set_file group id q file g m h =
    rw (file_of, file_of-files group id q file m h, find-set q q g m.file_heap, beq_refl q) refl

get_storage_type-set_file :
    (group id : Bytes) (q : ℕ) (g : FileInformation) (m : Manager)
    → get_storage_type group id (set_file q g m) ≡ get_storage_type group id m
unfolding get_storage_type
get_storage_type-set_file group id q g m = refl

retrieve_record_open :
    (group id : Bytes) (k : KeyType) (q : ℕ) (file : FileInformation) (m : Manager)
    → file_of group id m ≡ some (q, file)
    → (retrieve_record group id k m).0 ≡ parsed (get_storage_type group id m) (read_key k file).0
unfolding retrieve_record
retrieve_record_open group id k q file m h = rw (retrieve_record, h) refl

write_record_open :
    (group id : Bytes) (k : KeyType) (text : Bytes) (q : ℕ) (file : FileInformation) (m : Manager)
    → file_of group id m ≡ some (q, file)
    → write_record group id k text m ≡ set_file q (append_record k text (delete_key k file)) m
unfolding write_record
write_record_open group id k text q file m h = rw (write_record, h) refl

-- A record that stands on a line.
pub record IsLine (r : Record) : Type 0 where
  pub storable : IsStorable r
  pub no_newline : (text : Bytes) → record_text r ≡ some text → Lacks b'\n' text

-- What writing a record does for those who read.
pub record Holds (group id : Bytes) (key : KeyType) (r : Record) (m n : Manager) : Type 0 where
  pub reads : (retrieve_record group id key n).0 ≡ some r
  pub keeps :
      (k : KeyType) → k ≢ key → (retrieve_record group id k n).0 ≡ (retrieve_record group id k m).0
  pub file_stays : HasFile group id n
  pub type_stays : get_storage_type group id n ≡ get_storage_type group id m

written-Holds :
    (group id : Bytes) (key : KeyType) (r : Record) (text : Bytes) (q : ℕ)
    (file g : FileInformation) (m : Manager)
    → file_of group id m ≡ some (q, file)
    → Written key text file g
    → parse_record (get_storage_type group id m) text ≡ some r
    → Holds group id key r m (set_file q g m)
written-Holds group id key r text q file g m h w p =
    let at = file_of-set_file group id q file g m h in
    let same = get_storage_type-set_file group id q g m in
    record {
      reads =
          retrieve_record_open group id key q g (set_file q g m) at
          ∙ ap (λ t. parsed t (read_key key g).0) same
          ∙ ap (parsed (get_storage_type group id m)) w.reads
          ∙ unfold parsed in p;
      keeps = λ k ne.
          retrieve_record_open group id k q g (set_file q g m) at
          ∙ ap (λ t. parsed t (read_key k g).0) same
          ∙ ap (parsed (get_storage_type group id m)) (w.keeps k ne)
          ∙ sym (retrieve_record_open group id k q file m h);
      file_stays = record { pointer = q; file = g; is_open = at; sound = w.sound };
      type_stays = same;
    }

-- A record that stands on a line and is of the storage's type, written under a key to an open and
-- sound file, is read back under the key, whether the key was in the file or not; every other key
-- reads what it read, and the file stays open and sound.
pub write_typed_record-Holds :
    (group id : Bytes) (key : KeyType) (r : Record) (m : Manager)
    → HasFile group id m
    → IsLine r
    → get_storage_type group id m ≡ type_of r
    → (n : Manager) × (write_typed_record group id key r m ≡ some n) × Holds group id key r m n
unfolding write_typed_record
write_typed_record-Holds group id key r m h l t =
    let (text, e, p) = parse_record-text r l.storable in
    let w = append_record-Written key text h.file h.sound (l.no_newline text e) in
    let g = append_record key text (delete_key key h.file) in
    (
      set_file h.pointer g m,
      rw (write_typed_record, e)
          (ap some (write_record_open group id key text h.pointer h.file m h.is_open)),
      written-Holds group id key r text h.pointer h.file g m h.is_open w
          (ap (λ x. parse_record x text) t ∙ p),
    )

-- The files and the tables of two managers are the same.
pub record SameFiles (m n : Manager) : Type 0 where
  pub files : n.files ≡ m.files
  pub heap : n.file_heap ≡ m.file_heap
  pub lists : n.list_storages ≡ m.list_storages
  pub key_values : n.key_value_storages ≡ m.key_value_storages
  pub tables : n.table_storages ≡ m.table_storages

module _ {m n : Manager} (same : SameFiles m n) (group id : Bytes) where
  file_of-SameFiles : file_of group id n ≡ file_of group id m
  unfolding file_of
  file_of-SameFiles =
      ap (λ f. file_of group id (record n { files = f })) same.files
      ∙ ap (λ h. file_of group id (record m { file_heap = h })) same.heap

  pub get_storage_type-SameFiles : get_storage_type group id n ≡ get_storage_type group id m
  unfolding get_storage_type
  get_storage_type-SameFiles = rw (get_storage_type, same.lists, same.key_values, same.tables) refl

  pub HasFile-SameFiles : HasFile group id m → HasFile group id n
  HasFile-SameFiles h = record {
    pointer = h.pointer;
    file = h.file;
    is_open = file_of-SameFiles ∙ h.is_open;
    sound = h.sound;
  }

  pub retrieve_record-SameFiles :
      (k : KeyType)
      → HasFile group id m
      → (retrieve_record group id k n).0 ≡ (retrieve_record group id k m).0
  retrieve_record-SameFiles k h =
      retrieve_record_open group id k h.pointer h.file n (file_of-SameFiles ∙ h.is_open)
      ∙ ap (λ t. parsed t (read_key k h.file).0) get_storage_type-SameFiles
      ∙ sym (retrieve_record_open group id k h.pointer h.file m h.is_open)
