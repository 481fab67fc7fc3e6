-- ===== src/Storages.antt =====
-- daemon/src/abstract_persistence_manager.cpp and the `create...Storage` of
-- daemon/src/file_persistence_manager.cpp: the storages on a heap, and how they come and go.
use yonderboy.Prelude.{
  ℕ, ◌+◌, Bool, true, false, not, Option, none, some, List, [], ◌∷◌, Bytes, nat_key, bytes_key,
  pair_key, ◌==◌, if◌then◌else◌,
}
use yonderboy.Prelude.Map.{Map, find, insert, erase, set}
use yonderboy.Prelude.Signed.{ℤ, pos, int_less}
use yonderboy.Macros.{StorageType, invalid_storage, list_storage, key_value_storage, table_storage}
use yonderboy.FileStream.{Stream}
use yonderboy.FileRecords.{
  Record, list_record, key_value_record, table_record, parse_list_record, parse_key_value_record,
  parse_table_record,
}
use yonderboy.PersistentStorage.{PersistentStorage, Backend, make_storage, lock_for_writing}
use yonderboy.PersistenceManager.{
  FileInformation, Manager, get_storage, get_storage_type, register_storage, unregister_storage,
  registered, registry_of, Registry, storage_has_changes, records_changed, swap_requested,
}
use yonderboy.FilePersistenceManager.{
  construct_path, Stat, create_group_directory, open_file, close_file, destroy_storage, next_key,
  retrieve_record,
}
use yonderboy.StorageReader.{read_records_into_storage}

pub data AnyStorage : Type 0 where
  of_list : PersistentStorage Bytes → AnyStorage
  of_key_value : PersistentStorage (Bytes × Bytes) → AnyStorage
  of_table : PersistentStorage (List Bytes) → AnyStorage

-- `storages` are the objects behind the pointers.
pub record World : Type 0 where
  pub manager : Manager
  pub storages : Map ℕ AnyStorage
  pub next_ref : ℕ

-- `static_cast<R*>` of what `retrieveRecord` returns.
abbrev pub list_of : Option Record → Option Bytes
list_of (some (list_record r)) = some r
list_of _ = none

abbrev pub key_value_of : Option Record → Option (Bytes × Bytes)
key_value_of (some (key_value_record k v)) = some (k, v)
key_value_of _ = none

abbrev pub table_of : Option Record → Option (List Bytes)
table_of (some (table_record es)) = some es
table_of _ = none

-- The manager as a storage at the pointer `this` calls it.
unfoldable pub backend : {R : Type 0} → (Option Record → Option R) → ℕ → Backend Manager R
backend cast this = record {
  swap_requested = swap_requested;
  retrieve_record = λ group id key m. let (r, n) = retrieve_record group id key m in (cast r, n);
  next_key = next_key;
  records_changed = records_changed this;
}

-- What the system answers while a storage is made: `stat` and `mkdir` on the group's directory,
-- whether the file can be opened, whether the server may block, and what `pthread_create` returns.
pub record Answers : Type 0 where
  pub stat : Stat
  pub made : Bool
  pub opens : Bool
  pub may_block : Bool
  pub thread_success : ℤ

abbrev pub new_storage : StorageType → Bytes → Bytes → Option AnyStorage
new_storage list_storage group id = some (of_list (make_storage group id list_storage))
new_storage key_value_storage group id =
    some (of_key_value (make_storage group id key_value_storage))
new_storage table_storage group id = some (of_table (make_storage group id table_storage))
new_storage invalid_storage group id = none

-- The reader of a storage at `p`, for the file at `q`.
unfoldable pub read_into : ℕ → ℕ → AnyStorage → Manager → Manager × AnyStorage
read_into p q (of_list s) m =
    let (n, t) = read_records_into_storage (backend list_of p) parse_list_record q (m, s) in
    (n, of_list t)
read_into p q (of_key_value s) m =
    let (n, t) =
      read_records_into_storage (backend key_value_of p) parse_key_value_record q (m, s) in
    (n, of_key_value t)
read_into p q (of_table s) m =
    let (n, t) = read_records_into_storage (backend table_of p) parse_table_record q (m, s) in
    (n, of_table t)

-- A reader in a thread of its own runs at a later time: this is its run.
unfoldable pub run_reader : ℕ → ℕ → World → World
run_reader p q w = elim (find p w.storages) [
  | none ↦ w
  | some s ↦
      let (m, t) = read_into p q s w.manager in
      record w { manager = m; storages = set p t w.storages }
]

-- The storage was made and its file is in the table; the reader starts. A refused thread is undone
-- where `pthread_create` returns less than 0.
unfoldable pub start_reader : Answers → Bytes → Bytes → ℕ → ℕ → FileInformation → World → ℕ × World
start_reader a group id p q file w =
    if a.may_block
    then (p, run_reader p q w)
    else if int_less a.thread_success (pos 0)
    then (let m = w.manager in
        let closed = close_file false file (record m { files = erase (group, id) m.files }) in
        (
          0,
          record w {
            manager = record closed { file_heap = erase q closed.file_heap };
            storages = erase p w.storages;
          },
        ))
    else (p, w)

-- The file is open: `FileInformation` and the storage are made.
unfoldable pub create_on : Answers → StorageType → Bytes → Bytes → Stream → World → ℕ × World
create_on a type group id stream w =
    let m = w.manager in
    let q = m.next_file in
    let file : FileInformation = record {
      path = construct_path group id m;
      stream = stream;
      key_positions = [];
      next_key = 0;
    } in
    let n = record m {
      files = insert (group, id) q m.files;
      file_heap = insert q file m.file_heap;
      next_file = q + 1;
    } in
    elim (new_storage type group id) [
      | none ↦ (0, w)
      | some s ↦ start_reader a group id w.next_ref q file (record {
        manager = n;
        storages = insert w.next_ref s w.storages;
        next_ref = w.next_ref + 1;
      })
    ]

-- `createListStorage`, `createKeyValueStorage` and `createTableStorage`.
unfoldable pub create_storage : Answers → StorageType → Bytes → Bytes → World → ℕ × World
create_storage a type group id w =
    if not (create_group_directory a.stat a.made)
    then (0, w)
    else let m = w.manager in
      let (stream, disk) = open_file a.opens (construct_path group id m) m.disk in
      let opened = record w { manager = record m { disk = disk } } in
      elim stream [ none ↦ (0, opened) | some s ↦ create_on a type group id s opened ]

-- `retrieveListStorage`, `retrieveKeyValueStorage` and `retrieveTableStorage`; a null pointer is
-- registered as well.
unfoldable pub retrieve_storage : Answers → StorageType → Bytes → Bytes → World → ℕ × World
retrieve_storage a type group id w = elim (registered group id (registry_of type w.manager)) [
  | some p ↦ (p, w)
  | none ↦
      let (p, v) = create_storage a type group id w in
      (p, record v { manager = register_storage type group id p v.manager })
]

abbrev pub locked : AnyStorage → AnyStorage
locked (of_list s) = of_list (lock_for_writing s)
locked (of_key_value s) = of_key_value (lock_for_writing s)
locked (of_table s) = of_table (lock_for_writing s)

unfoldable pub lock_storage : ℕ → World → World
lock_storage p w = elim (find p w.storages) [
  | none ↦ w
  | some s ↦ record w { storages = set p (locked s) w.storages }
]

-- A storage that is locked goes at once, or when its changes are written.
unfoldable pub drop_or_keep : ℕ → Bytes → Bytes → World → World
drop_or_keep p group id w =
    let m = w.manager in
    if not (storage_has_changes p m)
    then record w { manager = destroy_storage group id m; storages = erase p w.storages }
    else record w { manager = record m { released_storages = insert p tt m.released_storages } }

unfoldable pub release_storage_but_dont_remove : Bytes → Bytes → World → World
release_storage_but_dont_remove group id w =
    let p = get_storage (get_storage_type group id w.manager) group id w.manager in
    if p == 0 then w else drop_or_keep p group id (lock_storage p w)

unfoldable pub release_storage : Bytes → Bytes → World → World
release_storage group id w =
    let v = release_storage_but_dont_remove group id w in
    record v {
      manager = unregister_storage (get_storage_type group id v.manager) group id v.manager;
    }

abbrev release_group : Bytes → Map Bytes ℕ → World → World
release_group group [] w = w
release_group group ((id, p) ∷ g) w =
    release_group group g (release_storage_but_dont_remove group id w)

abbrev release_all : Registry → World → World
release_all [] w = w
release_all ((group, g) ∷ r) w = release_all r (release_group group g w)

-- `close` up to its wait for the syncing thread. `may_block` is true without a server.
unfoldable pub close : Bool → World → World
close may_block w =
    if not may_block
    then w
    else let v =
        release_all w.manager.table_storages
          (release_all w.manager.key_value_storages (release_all w.manager.list_storages w)) in
      record v { manager = record v.manager { syncing_should_end = true } }
