-- ===== src/SyncThread/Rounds.antt =====
-- daemon/src/abstract_persistence_manager_sync.cpp: a round takes the changes of the first storage
-- of the queue, all of them, and they are in its file when it is over.
use yonderboy.Prelude.{
  ℕ, true, false, none, some, List, [], ◌∷◌, ◌≡◌, ◌≢◌, refl, sym, ap, subst, ◌∙◌, arith, Bytes,
  bytes_eq_refl, nat_key, ◌==◌,
}
use yonderboy.Prelude.Map.{Map, find, has, set, erase, find-set, beq_refl, IsSorted}
use yonderboy.Prelude.Signed.{int_key}
use yonderboy.Macros.{KeyType, StorageType}
use yonderboy.FileRecords.{Record, list_record, key_value_record, table_record}
use yonderboy.PersistentStorage.{swap_records_for_syncing}
use yonderboy.PersistentStorage.Syncing.{get_records_asked}
use yonderboy.PersistenceManager.{Manager, get_storage_type, swap_requested}
use yonderboy.FilePersistenceManager.{retrieve_record, destroy_storage}
use yonderboy.FilePersistenceManager.Records.{
  HasFile, SameFiles, HasFile-SameFiles, get_storage_type-SameFiles, retrieve_record-SameFiles,
}
use yonderboy.Storages.{AnyStorage, of_list, of_key_value, of_table, World, backend}
use yonderboy.SyncThread.{
  group_of, id_of, map_records, changed_records_of, take_changed, swap_changed, write_records,
  finish_sync, write_swapped, sync_storage, synced, sync_pass, pass_of,
}
use yonderboy.SyncThread.Heap.{write_records-IsHeapOf}
use yonderboy.SyncThread.Writing.{AllTexts-AllLines, AllLines, Synced, write_records-Synced}

-- The changes that wait in a storage, and the storage without them.
abbrev pub pending_of : AnyStorage → Map KeyType Record
pending_of (of_list s) = map_records list_record s.changed_records
pending_of (of_key_value s) = map_records (λ e. key_value_record e.0 e.1) s.changed_records
pending_of (of_table s) = map_records table_record s.changed_records

abbrev pub swapped : AnyStorage → AnyStorage
swapped (of_list s) = of_list (swap_records_for_syncing s)
swapped (of_key_value s) = of_key_value (swap_records_for_syncing s)
swapped (of_table s) = of_table (swap_records_for_syncing s)

pub swapped-pending : (s : AnyStorage) → pending_of (swapped s) ≡ []
unfolding swap_records_for_syncing
swapped-pending (of_list s) = refl
swapped-pending (of_key_value s) = refl
swapped-pending (of_table s) = refl

-- The manager asks the storage.
abbrev asking : AnyStorage → Manager → Manager
asking s m = record m { syncing_group = group_of s; syncing_id = id_of s }

asks :
    (group id : Bytes) (m : Manager)
    → swap_requested group id (record m { syncing_group = group; syncing_id = id }) ≡ true
unfolding swap_requested
asks group id m = rw (bytes_eq_refl group, bytes_eq_refl id) refl

changed_records_asked :
    (p : ℕ) (m : Manager) (s : AnyStorage)
    → changed_records_of p (asking s m) s ≡ (pending_of s, swapped s)
unfolding changed_records_of backend
changed_records_asked p m (of_list s) =
    rw (get_records_asked (backend _ p) (asking (of_list s) m) s (asks s.group s.id m)) refl
changed_records_asked p m (of_key_value s) =
    rw (get_records_asked (backend _ p) (asking (of_key_value s) m) s (asks s.group s.id m)) refl
changed_records_asked p m (of_table s) =
    rw (get_records_asked (backend _ p) (asking (of_table s) m) s (asks s.group s.id m)) refl

-- The world after the swap.
abbrev pub swapped_world : ℕ → AnyStorage → World → World
swapped_world p s w = record w {
  manager = record w.manager { syncing_group = []; syncing_id = [] };
  storages = set p (swapped s) w.storages;
}

swap_changed_lem :
    (p : ℕ) (s : AnyStorage) (w : World) → swap_changed p s w ≡ (pending_of s, swapped_world p s w)
unfolding swap_changed
swap_changed_lem p s w =
    ap
      (λ x. (
        x.0,
        record w {
          manager = record w.manager { syncing_group = []; syncing_id = [] };
          storages = set p x.1 w.storages;
        },
      ))
      (changed_records_asked p w.manager s)

write_swapped_lem :
    (p : ℕ) (s : AnyStorage) (records : Map KeyType Record) (v : World) (n : Manager)
    → write_records (group_of s) (id_of s) records v.manager ≡ some n
    → write_swapped p s (records, v)
      ≡ some (finish_sync p (group_of s) (id_of s) (record v { manager = n }))
unfolding write_swapped
write_swapped_lem p s records v n e = rw (write_swapped, e) refl

pub sync_storage_lem :
    (p : ℕ) (s : AnyStorage) (w : World) (n : Manager)
    → write_records (group_of s) (id_of s) (pending_of s) (swapped_world p s w).manager ≡ some n
    → sync_storage p s w
      ≡ some (finish_sync p (group_of s) (id_of s) (record (swapped_world p s w) { manager = n }))
unfolding sync_storage
sync_storage_lem p s w n h =
    ap (write_swapped p s) (swap_changed_lem p s w)
    ∙ write_swapped_lem p s (pending_of s) (swapped_world p s w) n h

pub finish_kept :
    (p : ℕ) (group id : Bytes) (w : World)
    → has p w.manager.released_storages ≡ false
    → finish_sync p group id w
      ≡ record w { manager = record w.manager { currently_syncing_storage = 0 } }
unfolding finish_sync
finish_kept p group id w h = rw (finish_sync, h) refl

pub finish_dropped :
    (p : ℕ) (group id : Bytes) (w : World)
    → has p w.manager.released_storages ≡ true
    → finish_sync p group id w ≡ record w {
      manager =
          record (destroy_storage group id
            (record w.manager { released_storages = erase p w.manager.released_storages })) {
              currently_syncing_storage = 0;
            };
      storages = erase p w.storages;
    }
unfolding finish_sync
finish_dropped p group id w h = rw (finish_sync, h) refl

-- The world when the first storage of the queue is taken.
abbrev pub taken : ℕ → List (ℕ × StorageType) → World → World
taken p queue w = record w {
  manager = record w.manager { changed_storages = queue; currently_syncing_storage = p };
}

pub sync_pass_lem :
    (p : ℕ) (type : StorageType) (queue : List (ℕ × StorageType)) (s : AnyStorage) (w : World)
    → w.manager.changed_storages ≡ (p, type) ∷ queue
    → p ≢ 0
    → find p w.storages ≡ some s
    → sync_pass w ≡ pass_of (sync_storage p s (taken p queue w))
unfolding sync_pass take_changed
sync_pass_lem p type queue s w q ne h =
    let z : p == 0 ≡ false = ground arith in rw (sync_pass, q, z, h) refl

-- What the round does, in terms of the files: the storage's changes are read back, the other records
-- of its file are as before, nothing of it waits, and the queue has moved on.
pub record SyncedRound (p : ℕ) (s : AnyStorage) (queue : List (ℕ × StorageType)) (w v : World)
    : Type 0 where
  pub moved_on : v.manager.changed_storages ≡ queue
  pub idle : v.manager.currently_syncing_storage ≡ 0
  pub storage : find p v.storages ≡ some (swapped s)
  pub nothing_waits : pending_of (swapped s) ≡ []
  pub written :
      (k : KeyType) (r : Record)
      → find k (pending_of s) ≡ some r
      → (retrieve_record (group_of s) (id_of s) k v.manager).0 ≡ some r
  pub kept :
      (k : KeyType)
      → find k (pending_of s) ≡ none
      → (retrieve_record (group_of s) (id_of s) k v.manager).0
        ≡ (retrieve_record (group_of s) (id_of s) k w.manager).0

module _ (p : ℕ) (queue : List (ℕ × StorageType)) (s : AnyStorage) (w : World) where
  abbrev pub written_world : Manager → World
  written_world n = record (swapped_world p s (taken p queue w)) { manager = n }

  abbrev pub started : Manager
  started = (swapped_world p s (taken p queue w)).manager

  round_lem :
      (n : Manager)
      → n ≡ record started { file_heap = n.file_heap }
      → HasFile (group_of s) (id_of s) w.manager
      → Synced (group_of s) (id_of s) (pending_of s) started n
      → SyncedRound p s queue w
          (record (written_world n) { manager = record n { currently_syncing_storage = 0 } })
  round_lem n only h y = record {
    moved_on = ap (λ x. x.changed_storages) only;
    idle = refl;
    storage = find-set p p (swapped s) w.storages ∙ rw (beq_refl p) refl;
    nothing_waits = swapped-pending s;
    written = λ k r e. after k ∙ y.reads k r e;
    kept =
        λ k e. after k ∙ y.keeps k e ∙ retrieve_record-SameFiles before (group_of s) (id_of s) k h;
  }
    where
      before : SameFiles w.manager started
      before = record { files = refl; heap = refl; lists = refl; key_values = refl; tables = refl }

      after :
          (k : KeyType)
          → (retrieve_record
              (group_of s)
              (id_of s)
              k
              (record n { currently_syncing_storage = 0 })).0
            ≡ (retrieve_record (group_of s) (id_of s) k n).0
      after k =
          retrieve_record-SameFiles
            (record { files = refl; heap = refl; lists = refl; key_values = refl; tables = refl })
            (group_of s) (id_of s) k y.file_stays

-- When the first storage of the queue is in use and not released, its file is open and sound, and
-- its changes are in key order and each stands on a line and is of the storage's type, a pass of
-- the syncing thread takes them all out of the storage and writes them: each is read back from
-- the file under its key, every other key of the file reads what it read, and the queue has moved
-- on by one.
pub sync_pass-SyncedRound :
    (p : ℕ) (type : StorageType) (queue : List (ℕ × StorageType)) (s : AnyStorage) (w : World)
    → w.manager.changed_storages ≡ (p, type) ∷ queue
    → p ≢ 0
    → find p w.storages ≡ some s
    → has p w.manager.released_storages ≡ false
    → HasFile (group_of s) (id_of s) w.manager
    → IsSorted (pending_of s)
    → AllLines (get_storage_type (group_of s) (id_of s) w.manager) (pending_of s)
    → (v : World) × (sync_pass w ≡ synced v) × SyncedRound p s queue w v
sync_pass-SyncedRound p type queue s w q ne f free h o l =
    let same : SameFiles w.manager (started p queue s w) = record {
      files = refl;
      heap = refl;
      lists = refl;
      key_values = refl;
      tables = refl;
    } in
    let (n, e, y) =
      write_records-Synced (group_of s) (id_of s) (pending_of s) (started p queue s w)
        (HasFile-SameFiles same (group_of s) (id_of s) h) o
        (subst (λ t. AllLines t (pending_of s))
          (sym (get_storage_type-SameFiles same (group_of s) (id_of s))) l) in
    let (m, d, only) =
      write_records-IsHeapOf (group_of s) (id_of s) (pending_of s) (started p queue s w)
        (AllTexts-AllLines (get_storage_type (group_of s) (id_of s) w.manager) (pending_of s) l) in
    let same_end : m ≡ n = ground (arith, d, e) in
    let only_n : n ≡ record (started p queue s w) { file_heap = n.file_heap } =
      subst (λ x. x ≡ record (started p queue s w) { file_heap = x.file_heap }) same_end only in
    (
      _,
      sync_pass_lem p type queue s w q ne f
          ∙ ap pass_of (
              sync_storage_lem p s (taken p queue w) n e
              ∙ ap some (
                  finish_kept p (group_of s) (id_of s) (written_world p queue s w n)
                    (ap (λ x. has p x.released_storages) only_n ∙ free))),
      round_lem p queue s w n only_n h y,
    )
