-- ===== src/PersistentStorage/Contents.antt =====
-- daemon/src/persistent_storage.h: what a caller reads back.
use yonderboy.Prelude.{
  Bool, true, false, not, is_some, Option, none, some, ◌≡◌, ◌≢◌, refl, sym, ap, ◌∙◌, arith,
  if◌then◌else◌, ◌+◌,
}
use mathlib.Core.Option.{get_or}
use yonderboy.Prelude.Map.{find, find-replaced, find-erase, find-insert}
use yonderboy.Prelude.Signed.{int_key, int_eq, int_eq_iff}
use yonderboy.Macros.{KeyType, invalid_key}
use yonderboy.PersistentStorage.{
  PersistentStorage, Backend, retrieve, keep_fetched, modify, store, remove, put_record,
  put_changed, drop_record, erase_record,
}

pub int_eq_refl : (k : KeyType) → int_eq k k ≡ true
int_eq_refl k = (int_eq_iff k k).1 refl

pub int_eq-ne : (k j : KeyType) → k ≢ j → int_eq k j ≡ false
int_eq-ne k j h = ground (arith, int_eq_iff k j)

module _ {F R : Type 0} (b : Backend F R) where
  pub retrieve_present :
      (blank r : R) (key : KeyType) (f : F) (s : PersistentStorage R)
      → find key s.records ≡ some r
      → retrieve b blank key (f, s) ≡ ((r, false), (f, s))
  unfolding retrieve
  retrieve_present blank r key f s h = rw (retrieve, h) refl

  pub retrieve_absent :
      (blank : R) (key : KeyType) (f : F) (s : PersistentStorage R)
      → find key s.records ≡ none
      → s.locked_for_writing ≡ false
      → retrieve b blank key (f, s)
        ≡ keep_fetched b blank key s (b.retrieve_record s.group s.id key f)
  unfolding retrieve
  retrieve_absent blank key f s h k = rw (retrieve, h, k) refl

  pub modify_open :
      (key : KeyType) (r : R) (c : Bool) (f : F) (s : PersistentStorage R)
      → s.locked_for_writing ≡ false
      → modify b key r c (f, s) ≡ (
          if c
          then (b.records_changed s.type f, put_changed key r (put_record key r s))
          else (f, put_record key r s))
  unfolding modify
  modify_open key r c f s h = rw h refl

  pub modify_shut :
      (key : KeyType) (r : R) (c : Bool) (f : F) (s : PersistentStorage R)
      → s.locked_for_writing ≡ true
      → modify b key r c (f, s) ≡ (f, s)
  unfolding modify
  modify_shut key r c f s h = rw h refl

  pub remove_shut :
      (key : KeyType) (f : F) (s : PersistentStorage R)
      → s.locked_for_writing ≡ true
      → remove b key (f, s) ≡ (f, s)
  unfolding remove
  remove_shut key f s h = rw h refl

  pub store_open :
      (r : R) (c : Bool) (f : F) (s : PersistentStorage R)
      → s.locked_for_writing ≡ false
      → store b r c (f, s)
        ≡ (let (key, g) = b.next_key s.group s.id f in (key, modify b key r c (g, s)))
  unfolding store
  store_open r c f s h = rw (store, h) refl

  pub store_shut :
      (r : R) (c : Bool) (f : F) (s : PersistentStorage R)
      → s.locked_for_writing ≡ true
      → store b r c (f, s) ≡ (invalid_key, (f, s))
  unfolding store
  store_shut r c f s h = rw (store, h) refl

  pub retrieve_shut :
      (blank : R) (key : KeyType) (f : F) (s : PersistentStorage R)
      → find key s.records ≡ none
      → s.locked_for_writing ≡ true
      → retrieve b blank key (f, s)
        ≡ ((blank, true), (f, record s { read_locks = s.read_locks + 1 }))
  unfolding retrieve
  retrieve_shut blank key f s h k = rw (retrieve, h, k) refl

  modify-find :
      (key k : KeyType) (r : R) (c : Bool) (f : F) (s : PersistentStorage R)
      → s.locked_for_writing ≡ false
      → find k (modify b key r c (f, s)).1.records
        ≡ (if int_eq key k then some r else find k s.records)
  unfolding put_record put_changed
  modify-find key k r true f s h =
      rw (modify_open key r true f s h) (find-replaced key k r s.records)
  modify-find key k r false f s h =
      rw (modify_open key r false f s h) (find-replaced key k r s.records)

  pub remove_open :
      (key : KeyType) (f : F) (s : PersistentStorage R)
      → s.locked_for_writing ≡ false
      → remove b key (f, s) ≡ (b.records_changed s.type f, drop_record key s)
  unfolding remove
  remove_open key f s h = rw h refl

  -- In a storage that is not locked for writing, a record that is put under a key is read back,
  -- and so is every other record that memory holds; neither asks the file.
  pub retrieve-modify :
      (blank r : R) (key : KeyType) (c : Bool) (f : F) (s : PersistentStorage R)
      → s.locked_for_writing ≡ false
      → (retrieve b blank key (modify b key r c (f, s)) ≡ ((r, false), modify b key r c (f, s)))
        × ((k : KeyType) (v : R)
            → k ≢ key
            → find k s.records ≡ some v
            → retrieve b blank k (modify b key r c (f, s)) ≡ ((v, false), modify b key r c (f, s)))
  retrieve-modify blank r key c f s h =
      let (g, t) = modify b key r c (f, s) in
      (
        retrieve_present blank r key g t
            (modify-find key key r c f s h ∙ rw (int_eq_refl key) refl),
        λ k v ne e.
            retrieve_present blank v k g t
              (modify-find key k r c f s h ∙ rw (int_eq-ne key k (λ q. ne (sym q))) e),
      )

  fetched_lem :
      (blank : R) (key : KeyType) (t : PersistentStorage R) (got : Option R) (g : F)
      → find key t.records ≡ none
      → ((keep_fetched b blank key t (got, g)).0 ≡ (get_or got blank, not (is_some got)))
        × (find key (keep_fetched b blank key t (got, g)).1.1.records ≡ got)
        × ((k : KeyType)
            → k ≢ key
            → find k (keep_fetched b blank key t (got, g)).1.1.records ≡ find k t.records)
  unfolding keep_fetched
  fetched_lem blank key t none g h = (refl, h, λ k ne. refl)
  fetched_lem blank key t (some r) g h = (
    refl,
    rw (find-insert key key r t.records, int_eq_refl key, h) refl,
    λ k ne. rw (find-insert key k r t.records, int_eq-ne key k (λ q. ne (sym q))) refl,
  )

  -- In a storage that is not locked for writing, a record that was removed is read as what the
  -- persistence manager still has under the key, if it has one: the record is returned and is
  -- back in memory. If the manager has none, a blank one is returned as not found, and none is in
  -- memory. The other records are as they were.
  pub retrieve-remove :
      (blank : R) (key : KeyType) (f g : F) (got : Option R) (s : PersistentStorage R)
      → s.locked_for_writing ≡ false
      → b.retrieve_record s.group s.id key (b.records_changed s.type f) ≡ (got, g)
      → ((retrieve b blank key (remove b key (f, s))).0 ≡ (get_or got blank, not (is_some got)))
        × (find key (retrieve b blank key (remove b key (f, s))).1.1.records ≡ got)
        × ((k : KeyType)
            → k ≢ key
            → find k (retrieve b blank key (remove b key (f, s))).1.1.records ≡ find k s.records)
  unfolding drop_record erase_record
  retrieve-remove blank key f g got s h m =
      let t = drop_record key s in
      let gone : find key t.records ≡ none =
        find-erase key key s.records ∙ rw (int_eq_refl key) refl in
      let same : retrieve b blank key (remove b key (f, s)) ≡ keep_fetched b blank key t (got, g) =
        ap (retrieve b blank key) (remove_open key f s h)
        ∙ retrieve_absent blank key (b.records_changed s.type f) t gone h
        ∙ ap (keep_fetched b blank key t) m in
      let (answer, kept, others) = fetched_lem blank key t got g gone in
      (
        ap (λ x. x.0) same ∙ answer,
        ap (λ x. find key x.1.1.records) same ∙ kept,
        λ k ne.
            ap (λ x. find k x.1.1.records) same
            ∙ others k ne
            ∙ find-erase key k s.records
            ∙ rw (int_eq-ne key k (λ q. ne (sym q))) refl,
      )

  pub modify-locked :
      (key : KeyType) (r : R) (c : Bool) (f : F) (s : PersistentStorage R)
      → s.locked_for_writing ≡ true
      → (modify b key r c (f, s) ≡ (f, s))
        × (remove b key (f, s) ≡ (f, s))
        × (store b r c (f, s) ≡ (invalid_key, (f, s)))
  modify-locked key r c f s h =
      (modify_shut key r c f s h, remove_shut key f s h, store_shut r c f s h)
