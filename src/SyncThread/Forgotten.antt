-- ===== src/SyncThread/Forgotten.antt =====
-- daemon/src/persistent_storage.h (`modify`) and daemon/src/abstract_persistence_manager.cpp
-- (`recordsChanged`): a change that comes while its storage is synced.
use yonderboy.Prelude.{ℕ, true, false, Option, some, ◌≡◌, ◌≢◌, refl, ap, ◌∙◌}
use yonderboy.Prelude.Map.{find, find-replaced}
use yonderboy.Prelude.Signed.{int_key}
use yonderboy.Macros.{KeyType}
use yonderboy.FileRecords.{Record}
use yonderboy.PersistentStorage.{PersistentStorage, modify, put_record, put_changed}
use yonderboy.PersistentStorage.Contents.{int_eq_refl, modify_open}
use yonderboy.PersistenceManager.{Manager, is_queued, storage_has_changes}
use yonderboy.PersistenceManager.Queue.{
  has_changes_idle, has_changes_current, records_changed_known,
}
use yonderboy.Storages.{backend}

put_changed-find :
    {R : Type 0} (key : KeyType) (r : R) (s : PersistentStorage R)
    → find key (put_changed key r (put_record key r s)).changed_records ≡ some r
unfolding put_changed put_record
put_changed-find key r s = find-replaced key key r s.changed_records ∙ rw (int_eq_refl key) refl

-- A change of an unlocked storage that comes while the storage is synced and not in the queue is
-- kept in the storage for the syncing thread, but when the round is over the storage counts as
-- one without changes.
pub modify-forgotten :
    {R : Type 0} (cast : Option Record → Option R) (p : ℕ) (key : KeyType) (r : R)
    (s : PersistentStorage R) (m : Manager)
    → p ≢ 0
    → s.locked_for_writing ≡ false
    → m.currently_syncing_storage ≡ p
    → is_queued p m.changed_storages ≡ false
    → let (n, t) = modify (backend cast p) key r true (m, s) in
      (find key t.changed_records ≡ some r)
      × (storage_has_changes p (record n { currently_syncing_storage = 0 }) ≡ false)
unfolding backend
modify-forgotten cast p key r s m ne free c q =
    let done = modify_open (backend cast p) key r true m s free in
    (
      ap (λ x. find key x.1.changed_records) done ∙ put_changed-find key r s,
      ap (λ x. storage_has_changes p (record x.0 { currently_syncing_storage = 0 })) done
          ∙ ap (λ n. storage_has_changes p (record n { currently_syncing_storage = 0 }))
              (records_changed_known p s.type m (has_changes_current p m c))
          ∙ has_changes_idle p m ne q,
    )
