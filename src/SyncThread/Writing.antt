-- ===== src/SyncThread/Writing.antt =====
-- daemon/src/abstract_persistence_manager_sync.cpp: the records that are written in a round are all
-- in the file behind it, and the file's other records stay.
use yonderboy.Prelude.{
  true, none, some, [], ◌∷◌, ◌≡◌, refl, sym, ap, subst, ◌∙◌, arith, Bytes, All, if◌then◌else◌, inl,
  inr, Bool-cases,
}
use yonderboy.Prelude.Map.{Map, find, IsSorted}
use yonderboy.Prelude.Signed.{int_key, int_eq, int_less, int_eq_iff, int_less_asym}
use yonderboy.Macros.{KeyType, StorageType}
use yonderboy.FileRecords.{Record, type_of}
use yonderboy.PersistenceManager.{Manager, get_storage_type}
use yonderboy.FilePersistenceManager.{retrieve_record, write_typed_record}
use yonderboy.FilePersistenceManager.Records.{HasFile, IsLine, Holds, write_typed_record-Holds}
use yonderboy.FileRecords.RoundTrips.{parse_record-text}
use yonderboy.SyncThread.Heap.{AllTexts}
use yonderboy.SyncThread.{write_records}

-- Each record stands on a line and is of the storage's type.
abbrev pub AllLines : StorageType → Map KeyType Record → Type 0
AllLines type = All (λ e. IsLine e.1 × (type ≡ type_of e.1))

-- The file's records are the written ones, and behind them the old ones.
pub record Synced (group id : Bytes) (records : Map KeyType Record) (m n : Manager) : Type 0 where
  pub reads :
      (k : KeyType) (r : Record)
      → find k records ≡ some r
      → (retrieve_record group id k n).0 ≡ some r
  pub keeps :
      (k : KeyType)
      → find k records ≡ none
      → (retrieve_record group id k n).0 ≡ (retrieve_record group id k m).0
  pub file_stays : HasFile group id n
  pub type_stays : get_storage_type group id n ≡ get_storage_type group id m

find_above :
    (key : KeyType) (records : Map KeyType Record)
    → All (λ d. int_less key d.0 ≡ true) records
    → find key records ≡ none
unfolding find
find_above key [] h = refl
find_above key ((k, r) ∷ records) h =
    ground (
      arith,
      int_eq_iff k key,
      int_less_asym k key,
      int_less_asym key k,
      find_above key records h.1,
    )

find_head :
    (key k : KeyType) (r : Record) (records : Map KeyType Record)
    → find k ((key, r) ∷ records) ≡ (if int_eq key k then some r else find k records)
unfolding find
find_head key k r records = refl

write_first :
    (group id : Bytes) (key : KeyType) (r : Record) (records : Map KeyType Record) (m n : Manager)
    → write_typed_record group id key r m ≡ some n
    → write_records group id ((key, r) ∷ records) m ≡ write_records group id records n
unfolding write_records
write_first group id key r records m n h = rw (write_records, h) refl

add_Synced :
    (group id : Bytes) (key : KeyType) (r : Record) (records : Map KeyType Record) (m n o : Manager)
    → find key records ≡ none
    → Holds group id key r m n
    → Synced group id records n o
    → Synced group id ((key, r) ∷ records) m o
add_Synced group id key r records m n o new h s = record {
  reads = λ k q e. elim (Bool-cases (int_eq key k)) [
    | inl b ↦
        let same : key ≡ k = ground (arith, int_eq_iff key k) in
        let which : r ≡ q = ground (arith, find_head key k r records) in
        ap (λ x. (retrieve_record group id x o).0) (sym same)
        ∙ s.keeps key new
        ∙ h.reads
        ∙ ap some which
    | inr b ↦ s.reads k q (ground (arith, find_head key k r records))
  ];
  keeps = λ k e. elim (Bool-cases (int_eq key k)) [
    | inl b ↦ absurd (ground (arith, find_head key k r records))
    | inr b ↦
        s.keeps k (ground (arith, find_head key k r records))
        ∙ h.keeps k (λ q. ground (arith, int_eq_iff key k))
  ];
  file_stays = s.file_stays;
  type_stays = s.type_stays ∙ h.type_stays;
}

pub write_records-Synced :
    (group id : Bytes) (records : Map KeyType Record) (m : Manager)
    → HasFile group id m
    → IsSorted records
    → AllLines (get_storage_type group id m) records
    → (n : Manager) × (write_records group id records m ≡ some n) × Synced group id records m n
write_records-Synced group id [] m h o l = (
  m,
  unfold write_records in refl,
  record {
    reads = λ k r e. absurd (unfold find in ground arith);
    keeps = λ k e. refl;
    file_stays = h;
    type_stays = refl;
  },
)
write_records-Synced group id ((key, r) ∷ records) m h o l =
    let (n, e, w) = write_typed_record-Holds group id key r m h l.0.0 l.0.1 in
    let (p, f, s) =
      write_records-Synced group id records n w.file_stays o.1
        (subst (λ t. AllLines t records) (sym w.type_stays) l.1) in
    (
      p,
      write_first group id key r records m n e ∙ f,
      add_Synced group id key r records m n p (find_above key records o.0) w s,
    )

pub AllTexts-AllLines :
    (type : StorageType) (records : Map KeyType Record) → AllLines type records → AllTexts records
AllTexts-AllLines type [] l = tt
AllTexts-AllLines type ((k, r) ∷ records) l =
    let (text, e, p) = parse_record-text r l.0.0.storable in
    ((text, e), AllTexts-AllLines type records l.1)
