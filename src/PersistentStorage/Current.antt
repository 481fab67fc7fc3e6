-- ===== src/PersistentStorage/Current.antt =====
-- daemon/src/persistent_storage.h: what waits for the syncing thread, at the turns of Locks.
use yonderboy.Prelude.{
  Option, none, some, ◌≡◌, ◌≢◌, ◌⊎◌, refl, sym, ap, arith, ◌∙◌, inl, inr, Bool-cases,
}
use yonderboy.Prelude.Map.{find, insert, find-replaced, find-erase, find-insert_kept}
use yonderboy.Prelude.Signed.{int_key, int_eq, int_eq_iff}
use yonderboy.Macros.{KeyType}
use yonderboy.PersistentStorage.{
  PersistentStorage, Backend, keep_fetched, put_record, put_changed, erase_record, erase_changed,
  note_deleted, get_records_to_sync, swap_records_for_syncing, lock_for_writing,
}
use yonderboy.PersistentStorage.Contents.{int_eq_refl}
use yonderboy.PersistentStorage.Locks.{
  Phase, idle, modifying, removing, noting, IsFree, IsLoadable, Turn, modify_starts, modify_ends,
  loads, remove_starts, remove_goes_on, remove_ends, fetches, syncs, locks, manages, Turns, stays,
  then,
}

-- The key that a change is under way for.
abbrev Exempt : {R : Type 0} → Phase R → KeyType → Type 0
Exempt idle k = ⊥
Exempt (modifying key r) k = key ≡ k
Exempt (removing key) k = key ≡ k
Exempt (noting key) k = ⊥

-- What waits for the syncing thread is the record that memory holds under its key.
abbrev pub IsCurrent : {R : Type 0} → PersistentStorage R → Type 0
IsCurrent {R} s =
    (k : KeyType) (v : R) → find k s.changed_records ≡ some v → find k s.records ≡ some v

abbrev IsMemory : {R : Type 0} → Phase R → PersistentStorage R → Type 0
IsMemory idle s = Unit
IsMemory (modifying key r) s = find key s.records ≡ some r
IsMemory (removing key) s = Unit
IsMemory (noting key) s = Unit

-- The same for a change that is under way, but for its key.
abbrev IsCurrentIn : {R : Type 0} → Phase R → PersistentStorage R → Type 0
IsCurrentIn {R} p s =
    ((k : KeyType) (v : R)
      → ¬ Exempt p k
      → find k s.changed_records ≡ some v
      → find k s.records ≡ some v)
    × IsMemory p s

module _ {R : Type 0} where
  put-find :
      (key : KeyType) (r : R) (s : PersistentStorage R)
      → find key (put_record key r s).records ≡ some r
  unfolding put_record
  put-find key r s = ground (arith, find-replaced key key r s.records, int_eq_refl key)

  modify_starts-IsCurrentIn :
      (key : KeyType) (r : R) (s : PersistentStorage R)
      → IsCurrentIn idle s
      → IsCurrentIn (modifying key r) (put_record key r s)
  unfolding put_record
  modify_starts-IsCurrentIn key r s (c, _) = (
    λ k v ne e. ground (arith, find-replaced key k r s.records, int_eq_iff key k, c k v (λ z. z) e),
    put-find key r s,
  )

  -- A record that waits under a key is the one that is put there, or waited before.
  waits :
      (key k : KeyType) (r v : R) (s : PersistentStorage R)
      → find k (put_changed key r s).changed_records ≡ some v
      → ((key ≡ k) × (r ≡ v)) ⊎ ((key ≢ k) × (find k s.changed_records ≡ some v))
  unfolding put_changed
  waits key k r v s e =
      let w = sym (find-replaced key k r s.changed_records) ∙ e in
      elim (Bool-cases (int_eq key k)) [
        | inl h ↦ inl ((int_eq_iff key k).0 h, ground (arith, w, h))
        | inr h ↦ inr (ground (arith, int_eq_iff key k, h), ground (arith, w, h))
      ]

  modify_ends-IsCurrentIn :
      (key : KeyType) (r : R) (s : PersistentStorage R)
      → IsCurrentIn (modifying key r) s
      → IsCurrentIn idle (put_changed key r s)
  unfolding put_changed
  modify_ends-IsCurrentIn key r s (c, m) = (current, tt)
    where
      current :
          (k : KeyType) (v : R)
          → ¬ ⊥
          → find k (put_changed key r s).changed_records ≡ some v
          → find k (put_changed key r s).records ≡ some v
      current k v ne e = elim (waits key k r v s e) [
        | inl (same, value) ↦ rw (sym same, sym value) m
        | inr (other, old) ↦ c k v other old
      ]

  loads-IsMemory :
      (p : Phase R) (key : KeyType) (r : R) (s : PersistentStorage R)
      → IsFree key p
      → IsMemory p s
      → IsMemory p (put_record key r s)
  unfolding put_record
  loads-IsMemory idle key r s l m = tt
  loads-IsMemory (modifying j v) key r s l m =
      find-replaced key j r s.records ∙ ground (arith, int_eq_iff key j, l, m)
  loads-IsMemory (removing j) key r s l m = tt
  loads-IsMemory (noting j) key r s l m = tt

  loads-IsCurrentIn :
      (p : Phase R) (key : KeyType) (r : R) (s : PersistentStorage R)
      → IsLoadable key r p s
      → IsCurrentIn p s
      → IsCurrentIn p (put_record key r s)
  unfolding put_record
  loads-IsCurrentIn p key r s (free, l) (c, m) = (
    λ k v ne e. elim (Bool-cases (int_eq key k)) [
      | inl h ↦
          let same : key ≡ k = (int_eq_iff key k).0 h in
          find-replaced key k r s.records ∙ rw h (ap some (sym (l v (rw same e))))
      | inr h ↦ find-replaced key k r s.records ∙ rw h (c k v ne e)
    ],
    loads-IsMemory p key r s free m,
  )

  remove_starts-IsCurrentIn :
      (key : KeyType) (s : PersistentStorage R)
      → IsCurrentIn idle s
      → IsCurrentIn (removing key) (erase_record key s)
  unfolding erase_record
  remove_starts-IsCurrentIn key s (c, _) = (
    λ k v ne e. ground (arith, find-erase key k s.records, int_eq_iff key k, c k v (λ z. z) e),
    tt,
  )

  remove_goes_on-IsCurrentIn :
      (key : KeyType) (s : PersistentStorage R)
      → IsCurrentIn (removing key) s
      → IsCurrentIn (noting key) (erase_changed key s)
  unfolding erase_changed
  remove_goes_on-IsCurrentIn key s (c, _) = (
    λ k v ne e.
        let w = sym (find-erase key k s.changed_records) ∙ e in
        elim (Bool-cases (int_eq key k)) [
          | inl h ↦ ground (arith, w, h)
          | inr h ↦ c k v (ground (arith, int_eq_iff key k, h)) (ground (arith, w, h))
        ],
    tt,
  )

  fetched-IsMemory :
      (p : Phase R) (key : KeyType) (r : R) (s : PersistentStorage R)
      → IsMemory p s
      → IsMemory p (record s { records = insert key r s.records })
  fetched-IsMemory idle key r s m = tt
  fetched-IsMemory (modifying j v) key r s m = find-insert_kept key j r v s.records m
  fetched-IsMemory (removing j) key r s m = tt
  fetched-IsMemory (noting j) key r s m = tt

  fetched-IsCurrentIn :
      (p : Phase R) (key : KeyType) (r : R) (s : PersistentStorage R)
      → IsCurrentIn p s
      → IsCurrentIn p (record s { records = insert key r s.records })
  fetched-IsCurrentIn p key r s (c, m) =
      (λ k v ne e. find-insert_kept key k r v s.records (c k v ne e), fetched-IsMemory p key r s m)

module _ {F R : Type 0} (b : Backend F R) where
  keep_fetched-IsCurrentIn :
      (p : Phase R) (blank : R) (key : KeyType) (got : Option R) (f : F) (s : PersistentStorage R)
      → IsCurrentIn p s
      → IsCurrentIn p (keep_fetched b blank key s (got, f)).1.1
  unfolding keep_fetched
  keep_fetched-IsCurrentIn p blank key (some r) f s h = fetched-IsCurrentIn p key r s h
  keep_fetched-IsCurrentIn p blank key none f s h = h

  with_records :
      (p : Phase R) (s t : PersistentStorage R)
      → t.records ≡ s.records
      → ((k : KeyType) (v : R)
          → find k t.changed_records ≡ some v
          → find k s.changed_records ≡ some v)
      → IsCurrentIn p s
      → IsCurrentIn p t
  with_records idle s t same h (c, m) = (λ k v ne e. rw same (c k v ne (h k v e)), tt)
  with_records (modifying j w) s t same h (c, m) =
      (λ k v ne e. rw same (c k v ne (h k v e)), rw same m)
  with_records (removing j) s t same h (c, m) = (λ k v ne e. rw same (c k v ne (h k v e)), tt)
  with_records (noting j) s t same h (c, m) = (λ k v ne e. rw same (c k v ne (h k v e)), tt)

  swap-IsCurrentIn :
      (p : Phase R) (f : F) (s : PersistentStorage R)
      → IsCurrentIn p s
      → IsCurrentIn p (get_records_to_sync b f s).1
  unfolding get_records_to_sync
  swap-IsCurrentIn p f s h = elim (Bool-cases (b.swap_requested s.group s.id f)) [
    | inl e ↦
        rw (get_records_to_sync, e)
          (unfold swap_records_for_syncing find in
            with_records p s (swap_records_for_syncing s) refl (λ k v q. ground (arith, q)) h)
    | inr e ↦ rw (get_records_to_sync, e) h
  ]

  Turn-IsCurrentIn :
      {p : Phase R} {f : F} {s : PersistentStorage R} {q : Phase R} {g : F}
      {t : PersistentStorage R}
      → Turn b p f s q g t
      → IsCurrentIn p s
      → IsCurrentIn q t
  unfolding note_deleted lock_for_writing
  Turn-IsCurrentIn {s = s} (modify_starts key r o) h = modify_starts-IsCurrentIn key r s h
  Turn-IsCurrentIn {s = s} (modify_ends key r) h = modify_ends-IsCurrentIn key r s h
  Turn-IsCurrentIn {p = p} {s = s} (loads key r l) h = loads-IsCurrentIn p key r s l h
  Turn-IsCurrentIn {s = s} (remove_starts key o) h = remove_starts-IsCurrentIn key s h
  Turn-IsCurrentIn {s = s} (remove_goes_on key) h = remove_goes_on-IsCurrentIn key s h
  Turn-IsCurrentIn (remove_ends key) h = h
  Turn-IsCurrentIn {p = p} {f = f} {s = s} (fetches blank key got) h =
      keep_fetched-IsCurrentIn p blank key got f s h
  Turn-IsCurrentIn {p = p} {f = f} {s = s} syncs h = swap-IsCurrentIn p f s h
  Turn-IsCurrentIn {p = p} {s = s} locks h =
      with_records p s (lock_for_writing s) refl (λ k v e. e) h
  Turn-IsCurrentIn (manages g) h = h

  Turns-IsCurrentIn :
      {p : Phase R} {f : F} {s : PersistentStorage R} {q : Phase R} {g : F}
      {t : PersistentStorage R}
      → Turns b p f s q g t
      → IsCurrentIn p s
      → IsCurrentIn q t
  Turns-IsCurrentIn stays h = h
  Turns-IsCurrentIn (then before turn) h = Turn-IsCurrentIn turn (Turns-IsCurrentIn before h)

  -- One thread changes a storage, while others read it, sync it and lock it, in any order of the
  -- steps between the locks: when no change is under way, a record that waits for the syncing
  -- thread is the one that memory holds under its key, if this was so before. A record is put in
  -- memory without being a change only where no `modify` of its key is under way, and no other
  -- record waits under its key.
  pub Turns-IsCurrent :
      {f g : F} {s t : PersistentStorage R} → IsCurrent s → Turns b idle f s idle g t → IsCurrent t
  Turns-IsCurrent h turns k v = (Turns-IsCurrentIn turns (λ j w ne. h j w, tt)).0 k v (λ z. z)
