-- ===== src/PersistentStorage/Syncing.antt =====
-- daemon/src/persistent_storage.h: what the syncing thread is given.
use yonderboy.Prelude.{true, some, ◌≡◌, refl}
use yonderboy.PersistentStorage.{
  PersistentStorage, Backend, get_records_to_sync, swap_records_for_syncing,
}

module _ {F R : Type 0} (b : Backend F R) where
  pub get_records_asked :
      (f : F) (s : PersistentStorage R)
      → b.swap_requested s.group s.id f ≡ true
      → get_records_to_sync b f s ≡ (some s.changed_records, swap_records_for_syncing s)
  unfolding get_records_to_sync swap_records_for_syncing
  get_records_asked f s h = rw (get_records_to_sync, h) refl
