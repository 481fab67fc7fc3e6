-- ===== src/SyncThread/Ends.antt =====
-- daemon/src/abstract_persistence_manager_sync.cpp: the syncing thread works the queue off, and ends
-- when it is told to.
use yonderboy.Prelude.{
  ℕ, suc, Bool, true, false, some, List, [], ◌∷◌, ◌≡◌, ◌≢◌, refl, sym, ap, subst, ◌∙◌, arith, Bytes,
  All, nat_key, length, inl, inr, Bool-cases, Option-cases,
}
use yonderboy.Prelude.Map.{Map, find, has, set, erase, find-set, find-erase}
use yonderboy.Macros.{StorageType}
use yonderboy.PersistenceManager.{Manager, is_queued}
use yonderboy.FilePersistenceManager.{file_of, destroy_storage, close_file}
use yonderboy.Storages.{AnyStorage, World}
use yonderboy.SyncThread.{
  group_of, id_of, finish_sync, Run, stopped, waiting, sync_records, sync_pass, synced, pass_of,
  take_changed, ended, sleeping,
}
use yonderboy.SyncThread.Heap.{AllTexts, write_records-IsHeapOf}
use yonderboy.SyncThread.Rounds.{
  pending_of, swapped, swapped-pending, finish_kept, finish_dropped, sync_pass_lem,
  sync_storage_lem, taken, started, written_world,
}

-- The queued storages are in use and different, and no record of theirs is an empty row.
abbrev pub IsReady : Map ℕ AnyStorage → List (ℕ × StorageType) → Type 0
IsReady m [] = Unit
IsReady m ((p, t) ∷ queue) =
    (p ≢ 0)
    × (is_queued p queue ≡ false)
    × ((s : AnyStorage) × (find p m ≡ some s) × AllTexts (pending_of s))
    × IsReady m queue

-- No change waits in the storage at a pointer, if it is in use.
abbrev pub IsDrained : World → ℕ → Type 0
IsDrained w p = (s : AnyStorage) → find p w.storages ≡ some s → pending_of s ≡ []

-- The members that destroying a storage leaves alone.
record SameQueue (m n : Manager) : Type 0 where
  queue : n.changed_storages ≡ m.changed_storages
  ending : n.syncing_should_end ≡ m.syncing_should_end

destroy_storage-SameQueue :
    (group id : Bytes) (m : Manager) → SameQueue m (destroy_storage group id m)
unfolding destroy_storage close_file
destroy_storage-SameQueue group id m = elim (Option-cases (file_of group id m)) [
  | inl e ↦ rw (destroy_storage, e) (record { queue = refl; ending = refl })
  | inr (q, e) ↦ rw (destroy_storage, e) (record { queue = refl; ending = refl })
]

-- What a round leaves.
record Round (p : ℕ) (queue : List (ℕ × StorageType)) (w v : World) : Type 0 where
  moved_on : v.manager.changed_storages ≡ queue
  ending : v.manager.syncing_should_end ≡ w.manager.syncing_should_end
  drained : IsDrained v p
  others : (r : ℕ) → r ≢ p → find r v.storages ≡ find r w.storages

-- What the end of a round leaves.
record Finished (p : ℕ) (w v : World) : Type 0 where
  same : SameQueue w.manager v.manager
  drained : IsDrained w p → IsDrained v p
  others : (r : ℕ) → r ≢ p → find r v.storages ≡ find r w.storages

erased-others : (p r : ℕ) (m : Map ℕ AnyStorage) → r ≢ p → find r (erase p m) ≡ find r m
erased-others p r m ne = ground (arith, find-erase p r m)

erased-drained :
    (p : ℕ) (m : Map ℕ AnyStorage) (s : AnyStorage)
    → find p (erase p m) ≡ some s
    → pending_of s ≡ []
erased-drained p m s e = absurd (ground (arith, find-erase p p m))

finish_sync-Finished :
    (p : ℕ) (group id : Bytes) (w : World) → Finished p w (finish_sync p group id w)
finish_sync-Finished p group id w = elim (Bool-cases (has p w.manager.released_storages)) [
  | inl e ↦
      let m = record w.manager { released_storages = erase p w.manager.released_storages } in
      let d = destroy_storage-SameQueue group id m in
      subst (Finished p w) (sym (finish_dropped p group id w e)) (record {
        same = record { queue = d.queue; ending = d.ending };
        drained = λ k. erased-drained p w.storages;
        others = λ r. erased-others p r w.storages;
      })
  | inr e ↦ subst (Finished p w) (sym (finish_kept p group id w e)) (record {
    same = record { queue = refl; ending = refl };
    drained = λ k. k;
    others = λ r ne. refl;
  })
]

sync_pass-Round :
    (p : ℕ) (type : StorageType) (queue : List (ℕ × StorageType)) (s : AnyStorage) (w : World)
    → w.manager.changed_storages ≡ (p, type) ∷ queue
    → p ≢ 0
    → find p w.storages ≡ some s
    → AllTexts (pending_of s)
    → (v : World) × (sync_pass w ≡ synced v) × Round p queue w v
sync_pass-Round p type queue s w q ne f texts =
    let (n, e, only) =
      write_records-IsHeapOf (group_of s) (id_of s) (pending_of s) (started p queue s w) texts in
    let o = written_world p queue s w n in
    let v = finish_sync p (group_of s) (id_of s) o in
    let d = finish_sync-Finished p (group_of s) (id_of s) o in
    (
      v,
      sync_pass_lem p type queue s w q ne f
          ∙ ap pass_of (sync_storage_lem p s (taken p queue w) n e),
      record {
        moved_on = d.same.queue ∙ ap (λ x. x.changed_storages) only;
        ending = d.same.ending ∙ ap (λ x. x.syncing_should_end) only;
        drained = d.drained (λ t g. swapped_pending t g);
        others = λ r k. d.others r k ∙ ground (arith, find-set p r (swapped s) w.storages);
      },
    )
  where
    swapped_pending :
        (t : AnyStorage) → find p (set p (swapped s) w.storages) ≡ some t → pending_of t ≡ []
    swapped_pending t g =
        let same : swapped s ≡ t = ground (arith, find-set p p (swapped s) w.storages) in
        ap pending_of (sym same) ∙ swapped-pending s

IsReady-others :
    (p : ℕ) (queue : List (ℕ × StorageType)) (m n : Map ℕ AnyStorage)
    → is_queued p queue ≡ false
    → ((r : ℕ) → r ≢ p → find r n ≡ find r m)
    → IsReady m queue
    → IsReady n queue
unfolding is_queued
IsReady-others p [] m n h others ready = tt
IsReady-others p ((r, t) ∷ queue) m n h others ready =
    let (s, e, texts) = ready.2 in
    (
      ready.0,
      ready.1,
      (s, others r (ground arith) ∙ e, texts),
      IsReady-others p queue m n (ground arith) others ready.3,
    )

-- The end of the thread's run with an empty queue.
abbrev pub rest_of : Bool → World → Run
rest_of true w = stopped w
rest_of false w = waiting w

-- The run over a queue.
pub record Drained (queue : List (ℕ × StorageType)) (w v : World) : Type 0 where
  pub empty : v.manager.changed_storages ≡ []
  pub all : All (λ e. IsDrained v e.0) queue
  pub others : (r : ℕ) → is_queued r queue ≡ false → find r v.storages ≡ find r w.storages

pass_ended :
    (w : World)
    → w.manager.changed_storages ≡ []
    → w.manager.syncing_should_end ≡ true
    → sync_pass w ≡ ended
unfolding sync_pass take_changed
pass_ended w q e = rw (sync_pass, q, e) refl

pass_sleeping :
    (w : World)
    → w.manager.changed_storages ≡ []
    → w.manager.syncing_should_end ≡ false
    → sync_pass w ≡ sleeping
unfolding sync_pass take_changed
pass_sleeping w q e = rw (sync_pass, q, e) refl

empty_pass :
    (w : World)
    → w.manager.changed_storages ≡ []
    → sync_records 1 w ≡ rest_of w.manager.syncing_should_end w
unfolding sync_records
empty_pass w q = elim (Bool-cases w.manager.syncing_should_end) [
  | inl e ↦ rw (sync_records, pass_ended w q e) (ap (λ b. rest_of b w) (sym e))
  | inr e ↦ rw (sync_records, pass_sleeping w q e) (ap (λ b. rest_of b w) (sym e))
]

next_pass :
    (fuel : ℕ) (w v : World)
    → sync_pass w ≡ synced v
    → sync_records (suc fuel) w ≡ sync_records fuel v
unfolding sync_records
next_pass fuel w v h = rw (sync_records, h) refl

not_queued :
    (p r : ℕ) (t : StorageType) (queue : List (ℕ × StorageType))
    → is_queued r ((p, t) ∷ queue) ≡ false
    → (r ≢ p) × (is_queued r queue ≡ false)
unfolding is_queued
not_queued p r t queue h = ground arith

-- When the storages in the queue are in use and different, no record of theirs is an empty row,
-- and nothing else runs, the syncing thread works the queue off in as many passes as it is long,
-- and one more; then it ends, if it was told to, or waits. No change is left in a storage that
-- was in the queue, and the other storages are as they were.
pub sync_records-Drained :
    (queue : List (ℕ × StorageType)) (w : World)
    → w.manager.changed_storages ≡ queue
    → IsReady w.storages queue
    → (v : World) × (sync_records (suc (length queue)) w ≡ rest_of w.manager.syncing_should_end v)
      × Drained queue w v
sync_records-Drained [] w q ready =
    (w, empty_pass w q, record { empty = q; all = tt; others = λ r h. refl })
sync_records-Drained ((p, t) ∷ queue) w q ready =
    let (s, f, texts) = ready.2 in
    let (o, e, r) = sync_pass-Round p t queue s w q (ready.0) f texts in
    let (v, g, d) =
      sync_records-Drained queue o r.moved_on
        (IsReady-others p queue w.storages o.storages (ready.1) r.others (ready.3)) in
    (
      v,
      next_pass (suc (length queue)) w o e ∙ g ∙ ap (λ b. rest_of b v) r.ending,
      record {
        empty = d.empty;
        all = (λ x k. r.drained x (sym (d.others p (ready.1)) ∙ k), d.all);
        others =
            λ k h. let (ne, rest) = not_queued p k t queue h in d.others k rest ∙ r.others k ne;
      },
    )
