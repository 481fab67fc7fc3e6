-- ===== src/PersistentStorage.antt =====
-- daemon/src/persistent_storage.h: the records of one list, map or table, kept in memory in front of
-- a persistence manager. The manager is the interface `Backend` over its state `F`.
pub mod Contents
pub mod Syncing
pub mod Locks
pub mod Current
use yonderboy.Prelude.{
  ℕ, ◌+◌, Bool, true, false, not, ◌&&◌, ◌||◌, Option, none, some, List, [], ◌∷◌, ◌++◌, Bytes,
  if◌then◌else◌,
}
use yonderboy.Prelude.Map.{Map, find, has, insert, erase}
use yonderboy.Prelude.Signed.{int_key}
use yonderboy.Macros.{KeyType, invalid_key, StorageType}

-- `read_locks` counts the read locks on `recordsLock` that a call leaves behind.
pub record PersistentStorage (R : Type 0) : Type 0 where
  pub records : Map KeyType R
  pub changed_records : Map KeyType R
  pub syncing_records : Map KeyType R
  pub deleted_records : List KeyType
  pub syncing_deleted_records : List KeyType
  pub read_locks : ℕ
  pub group : Bytes
  pub id : Bytes
  pub locked_for_writing : Bool
  pub all_records_available : Bool
  pub type : StorageType

-- What a storage calls of its manager. A null pointer of `retrieveRecord` is `none`;
-- `records_changed` is about the storage that calls it.
pub record Backend (F R : Type 0) : Type 0 where
  pub swap_requested : Bytes → Bytes → F → Bool
  pub retrieve_record : Bytes → Bytes → KeyType → F → Option R × F
  pub next_key : Bytes → Bytes → F → KeyType × F
  pub records_changed : StorageType → F → F

abbrev pub make_storage : {R : Type 0} → Bytes → Bytes → StorageType → PersistentStorage R
make_storage group id type = record {
  records = [];
  changed_records = [];
  syncing_records = [];
  deleted_records = [];
  syncing_deleted_records = [];
  read_locks = 0;
  group = group;
  id = id;
  locked_for_writing = false;
  all_records_available = false;
  type = type;
}

module _ {R : Type 0} where
  unfoldable pub swap_records_for_syncing : PersistentStorage R → PersistentStorage R
  swap_records_for_syncing s = record s {
    syncing_records = s.changed_records;
    changed_records = [];
  }

  unfoldable pub swap_deleted_records_for_syncing : PersistentStorage R → PersistentStorage R
  swap_deleted_records_for_syncing s = record s {
    syncing_deleted_records = s.deleted_records;
    deleted_records = [];
  }

  -- The two parts of `modify`, each under a lock of its own: `erase` and then `insert`. What other
  -- threads do between the parts is in Locks.
  unfoldable pub put_record : KeyType → R → PersistentStorage R → PersistentStorage R
  put_record key r s = record s { records = insert key r (erase key s.records) }

  unfoldable pub put_changed : KeyType → R → PersistentStorage R → PersistentStorage R
  put_changed key r s = record s { changed_records = insert key r (erase key s.changed_records) }

  -- The three parts of `remove`, each under a lock of its own.
  unfoldable pub erase_record : KeyType → PersistentStorage R → PersistentStorage R
  erase_record key s = record s { records = erase key s.records }

  unfoldable pub erase_changed : KeyType → PersistentStorage R → PersistentStorage R
  erase_changed key s = record s { changed_records = erase key s.changed_records }

  unfoldable pub note_deleted : KeyType → PersistentStorage R → PersistentStorage R
  note_deleted key s = record s { deleted_records = s.deleted_records ++ key ∷ [] }

  unfoldable pub drop_record : KeyType → PersistentStorage R → PersistentStorage R
  unfolding erase_record erase_changed note_deleted
  drop_record key s = note_deleted key (erase_changed key (erase_record key s))

  unfoldable pub contains_record : (R → R → Bool) → R → PersistentStorage R → Bool
  contains_record same r s = any s.records
    where
      any : Map KeyType R → Bool
      any [] = false
      any ((k, v) ∷ m) = same v r || any m

  unfoldable pub contains_key : KeyType → PersistentStorage R → Bool
  contains_key key s = has key s.records

  abbrev pub keys_of : Map KeyType R → List KeyType
  keys_of [] = []
  keys_of ((k, v) ∷ m) = k ∷ keys_of m

  unfoldable pub list_keys : PersistentStorage R → List KeyType
  list_keys s = keys_of s.records

  unfoldable pub lock_for_writing : PersistentStorage R → PersistentStorage R
  lock_for_writing s = record s { locked_for_writing = true }

  unfoldable pub all_records_made_available : PersistentStorage R → PersistentStorage R
  all_records_made_available s = record s { all_records_available = true }

module _ {F R : Type 0} (b : Backend F R) where
  -- `none` is the null pointer.
  unfoldable pub get_records_to_sync :
      F → PersistentStorage R → Option (Map KeyType R) × PersistentStorage R
  get_records_to_sync f s =
      if not (b.swap_requested s.group s.id f)
      then (none, s)
      else (some (swap_records_for_syncing s).syncing_records, swap_records_for_syncing s)

  unfoldable pub get_deleted_records_to_sync :
      F → PersistentStorage R → Option (List KeyType) × PersistentStorage R
  get_deleted_records_to_sync f s = if not (b.swap_requested s.group s.id f) then (none, s) else (
    some (swap_deleted_records_for_syncing s).syncing_deleted_records,
    swap_deleted_records_for_syncing s,
  )

  -- The fetched record of `retrieve`; a record that came meanwhile would stay.
  unfoldable pub keep_fetched :
      R → KeyType → PersistentStorage R → Option R × F → (R × Bool) × (F × PersistentStorage R)
  keep_fetched blank key s (some r, f) =
      ((r, false), (f, record s { records = insert key r s.records }))
  keep_fetched blank key s (none, f) = ((blank, true), (f, s))

  -- The record and `notFound`; `blank` is `R()`.
  unfoldable pub retrieve :
      R → KeyType → F × PersistentStorage R → (R × Bool) × (F × PersistentStorage R)
  retrieve blank key (f, s) = elim (find key s.records) [
    | some r ↦ ((r, false), (f, s))
    | none ↦
        if s.locked_for_writing
        then ((blank, true), (f, record s { read_locks = s.read_locks + 1 }))
        else keep_fetched blank key s (b.retrieve_record s.group s.id key f)
  ]

  -- A whole call, with no other thread between its parts; so is `remove`.
  unfoldable pub modify : KeyType → R → Bool → F × PersistentStorage R → F × PersistentStorage R
  modify key r is_change (f, s) =
      if s.locked_for_writing
      then (f, s)
      else if is_change
      then (b.records_changed s.type f, put_changed key r (put_record key r s))
      else (f, put_record key r s)

  unfoldable pub store : R → Bool → F × PersistentStorage R → KeyType × (F × PersistentStorage R)
  store r is_change (f, s) =
      if s.locked_for_writing
      then (invalid_key, (f, s))
      else let (key, f') = b.next_key s.group s.id f in (key, modify key r is_change (f', s))

  unfoldable pub remove : KeyType → F × PersistentStorage R → F × PersistentStorage R
  remove key (f, s) =
      if s.locked_for_writing then (f, s) else (b.records_changed s.type f, drop_record key s)
