-- ===== src/PersistenceManager.antt =====
-- daemon/src/abstract_persistence_manager.cpp: which storages there are, and the queue of those with
-- changes. The state holds the members of FilePersistenceManager too, which extends the class.
-- A pointer to a storage is a number, and 0 is the null pointer.
pub mod Queue
use yonderboy.Prelude.{
  ℕ, Bool, true, false, ◌&&◌, ◌||◌, Option, none, some, List, [], ◌∷◌, ◌++◌, Bytes, bytes_eq,
  bytes_key, ◌==◌, if◌then◌else◌,
}
use yonderboy.Prelude.Map.{Map, find, has, insert, erase, set}
use yonderboy.Prelude.Signed.{ℤ}
use yonderboy.Macros.{
  KeyType, StorageType, invalid_storage, list_storage, key_value_storage, table_storage,
}
use yonderboy.FileStream.{Stream}

-- `FilePersistenceManager::FileInformation`. `next_key` counts up from 0.
pub record FileInformation : Type 0 where
  pub path : Bytes
  pub stream : Stream
  pub key_positions : Map KeyType ℤ
  pub next_key : ℕ

abbrev pub Registry : Type 0
Registry = Map Bytes (Map Bytes ℕ)

-- `files` has pointers into `file_heap`; `disk` is what the files hold when no stream is open on them.
pub record Manager : Type 0 where
  pub list_storages : Registry
  pub key_value_storages : Registry
  pub table_storages : Registry
  pub changed_storages : List (ℕ × StorageType)
  pub released_storages : Map ℕ (Unit {0})
  pub currently_syncing_storage : ℕ
  pub syncing_group : Bytes
  pub syncing_id : Bytes
  pub syncing_should_end : Bool
  pub base_folder : Bytes
  pub use_compaction : Bool
  pub files : Map (Bytes × Bytes) ℕ
  pub file_heap : Map ℕ FileInformation
  pub next_file : ℕ
  pub disk : Map Bytes Bytes

-- The two constructors.
abbrev pub make_manager : Bytes → Bool → Map Bytes Bytes → Manager
make_manager folder use_compaction disk = record {
  list_storages = [];
  key_value_storages = [];
  table_storages = [];
  changed_storages = [];
  released_storages = [];
  currently_syncing_storage = 0;
  syncing_group = [];
  syncing_id = [];
  syncing_should_end = false;
  base_folder = folder;
  use_compaction = use_compaction;
  files = [];
  file_heap = [];
  next_file = 1;
  disk = disk;
}

unfoldable pub registered : Bytes → Bytes → Registry → Option ℕ
registered group id r = elim (find group r) [ none ↦ none | some g ↦ find id g ]

abbrev pub is_registered : Bytes → Bytes → Registry → Bool
is_registered group id r = elim (registered group id r) [ none ↦ false | some p ↦ true ]

abbrev pub registry_of : StorageType → Manager → Registry
registry_of list_storage m = m.list_storages
registry_of key_value_storage m = m.key_value_storages
registry_of table_storage m = m.table_storages
registry_of invalid_storage m = []

abbrev pub set_registry : StorageType → Registry → Manager → Manager
set_registry list_storage r m = record m { list_storages = r }
set_registry key_value_storage r m = record m { key_value_storages = r }
set_registry table_storage r m = record m { table_storages = r }
set_registry invalid_storage r m = m

unfoldable pub get_storage_type : Bytes → Bytes → Manager → StorageType
get_storage_type group id m =
    if is_registered group id m.list_storages
    then list_storage
    else if is_registered group id m.key_value_storages
    then key_value_storage
    else if is_registered group id m.table_storages
    then table_storage
    else invalid_storage

-- `getListStorage`, `getKeyValueStorage` and `getTableStorage`.
unfoldable pub get_storage : StorageType → Bytes → Bytes → Manager → ℕ
get_storage type group id m = elim (registered group id (registry_of type m)) [
  | none ↦ 0
  | some p ↦ p
]

-- The `insert` of the three `retrieve...Storage`, with the group's map made first.
unfoldable pub register_storage : StorageType → Bytes → Bytes → ℕ → Manager → Manager
register_storage type group id p m = elim (find group (registry_of type m)) [
  | none ↦ set_registry type (insert group ((id, p) ∷ []) (registry_of type m)) m
  | some g ↦ set_registry type (set group (insert id p g) (registry_of type m)) m
]

-- The switch at the end of `releaseStorage`.
unfoldable pub unregister_storage : StorageType → Bytes → Bytes → Manager → Manager
unregister_storage type group id m = elim (find group (registry_of type m)) [
  | none ↦ m
  | some g ↦ set_registry type (set group (erase id g) (registry_of type m)) m
]

unfoldable pub is_queued : ℕ → List (ℕ × StorageType) → Bool
is_queued p [] = false
is_queued p ((q, t) ∷ queue) = q == p || is_queued p queue

unfoldable pub storage_has_changes : ℕ → Manager → Bool
storage_has_changes p m = m.currently_syncing_storage == p || is_queued p m.changed_storages

unfoldable pub records_changed : ℕ → StorageType → Manager → Manager
records_changed p type m =
    if storage_has_changes p m
    then m
    else record m { changed_storages = m.changed_storages ++ (p, type) ∷ [] }

unfoldable pub swap_requested : Bytes → Bytes → Manager → Bool
swap_requested group id m = bytes_eq m.syncing_group group && bytes_eq m.syncing_id id
