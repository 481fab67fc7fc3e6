-- ===== src/SyncThread.antt =====
-- daemon/src/abstract_persistence_manager_sync.cpp: the thread that writes changed storages, one
-- after the other. `none` is a dangling pointer, or the exception of a record that cannot be
-- written, which nothing in the thread catches.
pub mod Writing
pub mod Heap
pub mod Rounds
pub mod Ends
pub mod Forgotten
use yonderboy.Prelude.{
  ℕ, zero, suc, ◌+◌, Bool, true, false, not, Option, none, some, List, [], ◌∷◌, Bytes, nat_key,
  ◌==◌, if◌then◌else◌,
}
use yonderboy.Prelude.Map.{Map, find, erase, set, has}
use yonderboy.Macros.{KeyType, StorageType}
use yonderboy.FileRecords.{Record, list_record, key_value_record, table_record}
use yonderboy.PersistentStorage.{PersistentStorage, get_records_to_sync}
use yonderboy.PersistenceManager.{Manager}
use yonderboy.FilePersistenceManager.{destroy_storage, write_typed_record}
use yonderboy.Storages.{
  AnyStorage, of_list, of_key_value, of_table, World, backend, list_of, key_value_of, table_of,
}

abbrev pub group_of : AnyStorage → Bytes
group_of (of_list s) = s.group
group_of (of_key_value s) = s.group
group_of (of_table s) = s.group

abbrev pub id_of : AnyStorage → Bytes
id_of (of_list s) = s.id
id_of (of_key_value s) = s.id
id_of (of_table s) = s.id

abbrev pub map_records : {R : Type 0} → (R → Record) → Map KeyType R → Map KeyType Record
map_records f [] = []
map_records f ((k, v) ∷ m) = (k, f v) ∷ map_records f m

abbrev pub some_records : {R : Type 0} → (R → Record) → Option (Map KeyType R) → Map KeyType Record
some_records f none = []
some_records f (some m) = map_records f m

-- The switch over `getRecordsToSync`; without records there is nothing to write.
unfoldable pub changed_records_of : ℕ → Manager → AnyStorage → Map KeyType Record × AnyStorage
changed_records_of p m (of_list s) =
    let (r, t) = get_records_to_sync (backend list_of p) m s in
    (some_records list_record r, of_list t)
changed_records_of p m (of_key_value s) =
    let (r, t) = get_records_to_sync (backend key_value_of p) m s in
    (some_records (λ e. key_value_record e.0 e.1) r, of_key_value t)
changed_records_of p m (of_table s) =
    let (r, t) = get_records_to_sync (backend table_of p) m s in
    (some_records table_record r, of_table t)

-- The first storage of the queue becomes the one that is synced.
unfoldable pub take_changed : World → Option (ℕ × World)
take_changed w = elim w.manager.changed_storages [
  | [] ↦ none
  | (p, type) ∷ queue ↦ some (
    p,
    record w {
      manager = record w.manager { changed_storages = queue; currently_syncing_storage = p };
    },
  )
]

-- The records that changed are taken out of the storage, while the manager asks it for them.
unfoldable pub swap_changed : ℕ → AnyStorage → World → Map KeyType Record × World
swap_changed p s w =
    let asking = record w.manager { syncing_group = group_of s; syncing_id = id_of s } in
    let (records, t) = changed_records_of p asking s in
    (
      records,
      record w {
        manager = record asking { syncing_group = []; syncing_id = [] };
        storages = set p t w.storages;
      },
    )

unfoldable pub write_records : Bytes → Bytes → Map KeyType Record → Manager → Option Manager
write_records group id [] m = some m
write_records group id ((key, r) ∷ records) m = elim (write_typed_record group id key r m) [
  | none ↦ none
  | some n ↦ write_records group id records n
]

-- A storage that was released goes now.
unfoldable pub finish_sync : ℕ → Bytes → Bytes → World → World
finish_sync p group id w =
    let m = w.manager in
    let (n, storages) : Manager × Map ℕ AnyStorage =
      if has p m.released_storages
      then (
        destroy_storage group id (record m { released_storages = erase p m.released_storages }),
        erase p w.storages,
      )
      else (m, w.storages) in
    record w { manager = record n { currently_syncing_storage = 0 }; storages = storages }

unfoldable pub write_swapped : ℕ → AnyStorage → Map KeyType Record × World → Option World
write_swapped p s (records, w) = elim (write_records (group_of s) (id_of s) records w.manager) [
  | none ↦ none
  | some m ↦ some (finish_sync p (group_of s) (id_of s) (record w { manager = m }))
]

unfoldable pub sync_storage : ℕ → AnyStorage → World → Option World
sync_storage p s w = write_swapped p s (swap_changed p s w)

-- What a pass through the loop does: it syncs a storage, it ends, or it waits to be signalled.
pub data Pass : Type 0 where
  synced : World → Pass
  ended : Pass
  sleeping : Pass
  crashed : Pass

abbrev pub pass_of : Option World → Pass
pass_of none = crashed
pass_of (some w) = synced w

unfoldable pub sync_pass : World → Pass
sync_pass w = elim (take_changed w) [
  | none ↦ if w.manager.syncing_should_end then ended else sleeping
  | some (p, v) ↦
      if p == 0
      then synced v
      else (elim (find p v.storages) [ none ↦ crashed | some s ↦ pass_of (sync_storage p s v) ])
]

-- How the thread goes on while nothing else runs.
pub data Run : Type 0 where
  stopped : World → Run
  waiting : World → Run
  failed : Run
  running : World → Run

unfoldable pub sync_records : ℕ → World → Run
sync_records zero w = running w
sync_records (suc fuel) w = elim (sync_pass w) [
  | synced v ↦ sync_records fuel v
  | ended ↦ stopped w
  | sleeping ↦ waiting w
  | crashed ↦ failed
]
