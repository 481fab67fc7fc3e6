-- ===== src/SyncThread/Heap.antt =====
-- daemon/src/abstract_persistence_manager_sync.cpp: writing records changes the open files alone.
use yonderboy.Prelude.{some, [], ◌∷◌, ◌≡◌, refl, ap, ◌∙◌, Bytes, All, inl, inr, Option-cases}
use yonderboy.Prelude.Map.{Map}
use yonderboy.Macros.{KeyType}
use yonderboy.FileRecords.{Record, record_text}
use yonderboy.PersistenceManager.{Manager}
use yonderboy.FilePersistenceManager.{file_of, write_record, write_typed_record}
use yonderboy.SyncThread.{write_records}

-- Two managers differ in the open files at most.
abbrev pub IsHeapOf : Manager → Manager → Type 0
IsHeapOf m n = n ≡ record m { file_heap = n.file_heap }

write_record-IsHeapOf :
    (group id : Bytes) (key : KeyType) (text : Bytes) (m : Manager)
    → IsHeapOf m (write_record group id key text m)
unfolding write_record
write_record-IsHeapOf group id key text m = elim (Option-cases (file_of group id m)) [
  | inl e ↦ rw (write_record, e) refl
  | inr (q, e) ↦ rw (write_record, e) refl
]

-- A record that is no empty row has a text.
abbrev pub HasText : Record → Type 0
HasText r = (text : Bytes) × (record_text r ≡ some text)

abbrev pub AllTexts : Map KeyType Record → Type 0
AllTexts = All (λ e. HasText e.1)

write_typed_record_text :
    (group id : Bytes) (key : KeyType) (r : Record) (text : Bytes) (m : Manager)
    → record_text r ≡ some text
    → write_typed_record group id key r m ≡ some (write_record group id key text m)
unfolding write_typed_record
write_typed_record_text group id key r text m h = rw (write_typed_record, h) refl

write_next :
    (group id : Bytes) (key : KeyType) (r : Record) (records : Map KeyType Record) (m n : Manager)
    → write_typed_record group id key r m ≡ some n
    → write_records group id ((key, r) ∷ records) m ≡ write_records group id records n
unfolding write_records
write_next group id key r records m n h = rw (write_records, h) refl

-- Records with texts are all written.
pub write_records-IsHeapOf :
    (group id : Bytes) (records : Map KeyType Record) (m : Manager)
    → AllTexts records
    → (n : Manager) × (write_records group id records m ≡ some n) × IsHeapOf m n
write_records-IsHeapOf group id [] m h = (m, unfold write_records in refl, refl)
write_records-IsHeapOf group id ((key, r) ∷ records) m h =
    let (text, e) = h.0 in
    let o = write_record group id key text m in
    let (n, f, g) = write_records-IsHeapOf group id records o h.1 in
    (
      n,
      write_next group id key r records m o (write_typed_record_text group id key r text m e) ∙ f,
      g
          ∙ ap {A = Manager} (λ x. record x { file_heap = n.file_heap })
              (write_record-IsHeapOf group id key text m),
    )
