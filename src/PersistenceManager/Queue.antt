-- ===== src/PersistenceManager/Queue.antt =====
-- daemon/src/abstract_persistence_manager.cpp: the queue of changed storages, as the threads of the
-- program change it.
use yonderboy.Prelude.{
  ℕ, true, false, ◌||◌, List, [], ◌∷◌, ◌++◌, ◌≡◌, ◌≢◌, refl, sym, ap, subst, ◌∙◌, arith, inl, inr,
  Bool-cases, ◌==◌,
}
use yonderboy.Prelude.Signed.{int_key}
use yonderboy.Macros.{StorageType}
use yonderboy.PersistenceManager.{Manager, is_queued, storage_has_changes, records_changed}

-- No storage stands twice in the queue.
abbrev pub IsDistinct : List (ℕ × StorageType) → Type 0
IsDistinct [] = Unit
IsDistinct ((p, t) ∷ queue) = (is_queued p queue ≡ false) × IsDistinct queue

-- Nor does the one that is synced, or the null pointer.
pub record IsQueue (m : Manager) : Type 0 where
  pub distinct : IsDistinct m.changed_storages
  pub not_current : is_queued m.currently_syncing_storage m.changed_storages ≡ false
  pub not_null : is_queued 0 m.changed_storages ≡ false

-- The steps of the threads: a storage tells of a change, and the syncing thread takes the first
-- storage of the queue, and is done with it.
pub data QueueStep (m : Manager) : Manager → Type 0 where
  tells : (p : ℕ) (t : StorageType) → p ≢ 0 → QueueStep m (records_changed p t m)
  takes :
      (p : ℕ) (t : StorageType) (queue : List (ℕ × StorageType))
      → m.changed_storages ≡ (p, t) ∷ queue
      → QueueStep m (record m { changed_storages = queue; currently_syncing_storage = p })
  finishes : QueueStep m (record m { currently_syncing_storage = 0 })

pub data QueueReach (m : Manager) : Manager → Type 0 where
  here : QueueReach m m
  next : {n o : Manager} → QueueReach m n → QueueStep n o → QueueReach m o

is_queued-append :
    (r p : ℕ) (t : StorageType) (queue : List (ℕ × StorageType))
    → is_queued r (queue ++ (p, t) ∷ []) ≡ (is_queued r queue || p == r)
unfolding is_queued
is_queued-append r p t [] = ground arith
is_queued-append r p t ((q, u) ∷ queue) = ground (arith, is_queued-append r p t queue)

IsDistinct-append :
    (p : ℕ) (t : StorageType) (queue : List (ℕ × StorageType))
    → is_queued p queue ≡ false
    → IsDistinct queue
    → IsDistinct (queue ++ (p, t) ∷ [])
unfolding is_queued
IsDistinct-append p t [] h d = (refl, tt)
IsDistinct-append p t ((q, u) ∷ queue) h d = (
  is_queued-append q p t queue ∙ ground (arith, d.0),
  IsDistinct-append p t queue (ground arith) d.1,
)

records_changed_new :
    (p : ℕ) (t : StorageType) (m : Manager)
    → storage_has_changes p m ≡ false
    → records_changed p t m ≡ record m { changed_storages = m.changed_storages ++ (p, t) ∷ [] }
unfolding records_changed
records_changed_new p t m h = rw (records_changed, h) refl

pub records_changed_known :
    (p : ℕ) (t : StorageType) (m : Manager)
    → storage_has_changes p m ≡ true
    → records_changed p t m ≡ m
unfolding records_changed
records_changed_known p t m h = rw (records_changed, h) refl

not_changed :
    (p : ℕ) (m : Manager)
    → storage_has_changes p m ≡ false
    → (m.currently_syncing_storage == p ≡ false) × (is_queued p m.changed_storages ≡ false)
unfolding storage_has_changes
not_changed p m h = ground arith

tells-IsQueue :
    (p : ℕ) (t : StorageType) (m : Manager) → p ≢ 0 → IsQueue m → IsQueue (records_changed p t m)
tells-IsQueue p t m ne h = elim (Bool-cases (storage_has_changes p m)) [
  | inl e ↦ subst IsQueue (sym (records_changed_known p t m e)) h
  | inr e ↦
      let (other, new) = not_changed p m e in
      subst IsQueue (sym (records_changed_new p t m e)) (record {
        distinct = IsDistinct-append p t m.changed_storages new h.distinct;
        not_current =
            is_queued-append m.currently_syncing_storage p t m.changed_storages
            ∙ ground (arith, h.not_current);
        not_null = is_queued-append 0 p t m.changed_storages ∙ ground (arith, h.not_null);
      })
]

takes-IsQueue :
    (p : ℕ) (t : StorageType) (queue : List (ℕ × StorageType)) (m : Manager)
    → m.changed_storages ≡ (p, t) ∷ queue
    → IsQueue m
    → IsQueue (record m { changed_storages = queue; currently_syncing_storage = p })
unfolding is_queued
takes-IsQueue p t queue m e h =
    let d = subst IsDistinct e h.distinct in
    let z = ap (is_queued 0) (sym e) ∙ h.not_null in
    record { distinct = d.1; not_current = d.0; not_null = ground arith }

QueueStep-IsQueue : {m n : Manager} → QueueStep m n → IsQueue m → IsQueue n
QueueStep-IsQueue {m} (tells p t ne) h = tells-IsQueue p t m ne h
QueueStep-IsQueue {m} (takes p t queue e) h = takes-IsQueue p t queue m e h
QueueStep-IsQueue finishes h = record {
  distinct = h.distinct;
  not_current = h.not_null;
  not_null = h.not_null;
}

-- However changes and the steps of the syncing thread interleave, no storage stands twice in the
-- queue of changed storages, and neither the storage that is being synced nor the null pointer
-- stands in it.
pub QueueReach-IsQueue : {m n : Manager} → QueueReach m n → IsQueue m → IsQueue n
QueueReach-IsQueue here h = h
QueueReach-IsQueue (next r s) h = QueueStep-IsQueue s (QueueReach-IsQueue r h)

pub has_changes_idle :
    (p : ℕ) (m : Manager)
    → p ≢ 0
    → is_queued p m.changed_storages ≡ false
    → storage_has_changes p (record m { currently_syncing_storage = 0 }) ≡ false
unfolding storage_has_changes
has_changes_idle p m ne h = ground arith

pub has_changes_current :
    (p : ℕ) (m : Manager) → m.currently_syncing_storage ≡ p → storage_has_changes p m ≡ true
unfolding storage_has_changes
has_changes_current p m h = ground arith
