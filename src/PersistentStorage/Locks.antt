-- ===== src/PersistentStorage/Locks.antt =====
-- daemon/src/persistent_storage.h: the calls of several threads, in turns between the locks. Each
-- lock covers one step: `recordsLock`, `changedRecordsMutex` and `deletedRecordsMutex`. One thread
-- changes the storage; others read it and sync it.
use yonderboy.Prelude.{true, false, Option, none, some, subst, sym, ◌≡◌, ◌≢◌}
use yonderboy.Prelude.Map.{find}
use yonderboy.Prelude.Signed.{int_key}
use yonderboy.Macros.{KeyType}
use yonderboy.PersistentStorage.{
  PersistentStorage, Backend, keep_fetched, modify, remove, store, retrieve, put_record,
  put_changed, drop_record, erase_record, erase_changed, note_deleted, get_records_to_sync,
  lock_for_writing,
}
use yonderboy.PersistentStorage.Contents.{modify_open, remove_open, store_open, retrieve_absent}

-- Where the changing thread is: in `modify` between its two locks, or in `remove` between the first
-- and the second or between the second and the third.
pub data Phase (R : Type 0) : Type 0 where
  idle : Phase R
  modifying : KeyType → R → Phase R
  removing : KeyType → Phase R
  noting : KeyType → Phase R

abbrev pub IsFree : {R : Type 0} → KeyType → Phase R → Type 0
IsFree key idle = Unit
IsFree key (modifying j v) = j ≢ key
IsFree key (removing j) = Unit
IsFree key (noting j) = Unit

-- The record may be loaded under `key`: no `modify` of it is under way, and none that waits differs.
abbrev pub IsLoadable : {R : Type 0} → KeyType → R → Phase R → PersistentStorage R → Type 0
IsLoadable {R} key r p s = IsFree key p × ((v : R) → find key s.changed_records ≡ some v → v ≡ r)

pub data Turn {F R : Type 0} (b : Backend F R)
    : Phase R → F → PersistentStorage R → Phase R → F → PersistentStorage R → Type 0 where
  modify_starts :
      {f : F} {s : PersistentStorage R} (key : KeyType) (r : R)
      → s.locked_for_writing ≡ false
      → Turn b idle f s (modifying key r) f (put_record key r s)
  modify_ends :
      {f : F} {s : PersistentStorage R} (key : KeyType) (r : R)
      → Turn b (modifying key r) f s idle (b.records_changed s.type f) (put_changed key r s)
  -- `modify` that is no change, as of `store` in a reader of a file
  loads :
      {p : Phase R} {f : F} {s : PersistentStorage R} (key : KeyType) (r : R)
      → IsLoadable key r p s
      → Turn b p f s p f (put_record key r s)
  remove_starts :
      {f : F} {s : PersistentStorage R} (key : KeyType)
      → s.locked_for_writing ≡ false
      → Turn b idle f s (removing key) f (erase_record key s)
  remove_goes_on :
      {f : F} {s : PersistentStorage R} (key : KeyType)
      → Turn b (removing key) f s (noting key) f (erase_changed key s)
  remove_ends :
      {f : F} {s : PersistentStorage R} (key : KeyType)
      → Turn b (noting key) f s idle (b.records_changed s.type f) (note_deleted key s)
  -- the end of a `retrieve` that did not find the record in memory, perhaps long before
  fetches :
      {p : Phase R} {f : F} {s : PersistentStorage R} (blank : R) (key : KeyType) (got : Option R)
      → Turn b p f s p f (keep_fetched b blank key s (got, f)).1.1
  syncs :
      {p : Phase R} {f : F} {s : PersistentStorage R}
      → Turn b p f s p f (get_records_to_sync b f s).1
  locks : {p : Phase R} {f : F} {s : PersistentStorage R} → Turn b p f s p f (lock_for_writing s)
  -- what other storages and the manager's thread do to the manager
  manages : {p : Phase R} {f : F} {s : PersistentStorage R} (g : F) → Turn b p f s p g s

pub data Turns {F R : Type 0} (b : Backend F R) (p : Phase R) (f : F) (s : PersistentStorage R)
    : Phase R → F → PersistentStorage R → Type 0 where
  stays : Turns b p f s p f s
  then :
      {q q' : Phase R} {g g' : F} {t t' : PersistentStorage R}
      → Turns b p f s q g t
      → Turn b q g t q' g' t'
      → Turns b p f s q' g' t'

module _ {F R : Type 0} (b : Backend F R) where
  -- A whole `modify` that is a change, and a whole `remove`, are turns with nothing between them.
  modify-Turns :
      (key : KeyType) (r : R) (f : F) (s : PersistentStorage R)
      → s.locked_for_writing ≡ false
      → Turns b idle f s idle (modify b key r true (f, s)).0 (modify b key r true (f, s)).1
  unfolding put_record
  modify-Turns key r f s o =
      rw (modify_open b key r true f s o)
        (then (then stays (modify_starts key r o)) (modify_ends key r))

  remove-Turns :
      (key : KeyType) (f : F) (s : PersistentStorage R)
      → s.locked_for_writing ≡ false
      → Turns b idle f s idle (remove b key (f, s)).0 (remove b key (f, s)).1
  unfolding drop_record erase_record erase_changed
  remove-Turns key f s o =
      rw (remove_open b key f s o)
        (then (then (then stays (remove_starts key o)) (remove_goes_on key)) (remove_ends key))

  -- `store` is `modify` under a key that the manager gives, which the manager counts.
  store-Turns :
      (r : R) (f : F) (s : PersistentStorage R)
      → s.locked_for_writing ≡ false
      → Turns b idle f s idle (store b r true (f, s)).1.0 (store b r true (f, s)).1.1
  store-Turns r f s o =
      let (key, g) = b.next_key s.group s.id f in
      rw (store_open b r true f s o, modify_open b key r true g s o)
        (unfold put_record in
          then (then (then stays (manages g)) (modify_starts key r o)) (modify_ends key r))

  -- A `modify` that is no change is the step that loads a record.
  modify-loads :
      (key : KeyType) (r : R) (f : F) (s : PersistentStorage R)
      → s.locked_for_writing ≡ false
      → IsLoadable key r idle s
      → Turns b idle f s idle (modify b key r false (f, s)).0 (modify b key r false (f, s)).1
  modify-loads key r f s o l = rw (modify_open b key r false f s o) (then stays (loads key r l))

  -- A `retrieve` that finds nothing in memory asks the manager and ends with what it fetched.
  retrieve-Turns :
      (blank : R) (key : KeyType) (f : F) (s : PersistentStorage R)
      → find key s.records ≡ none
      → s.locked_for_writing ≡ false
      → Turns b idle f s idle
          (b.retrieve_record s.group s.id key f).1
          (retrieve b blank key (f, s)).1.1
  retrieve-Turns blank key f s n o =
      let (got, g) = b.retrieve_record s.group s.id key f in
      subst (λ x. Turns b idle f s idle g x.1.1) (sym (retrieve_absent b blank key f s n o))
        (then (then stays (manages g)) (fetches blank key got))
