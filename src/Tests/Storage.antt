-- ===== src/Tests/Storage.antt =====
-- Storages and their files: runs of the persistence managers.
use yonderboy.Prelude.{
  bytes_eq, ◌≡◌, ◌≢◌, refl, sym, subst, arith, some, ◌∷◌, [], true, false, bytes_key, nat_key,
  pair_key, Bytes, All,
}
use yonderboy.Prelude.Map.{find}
use yonderboy.Prelude.Text.{codes, is_space, find_byte, find_first_not_of, find_last_not_of}
use yonderboy.Prelude.Signed.{ℤ, pos, int_key, int_eq, int_eq_iff}
use yonderboy.Macros.{KeyType, list_storage, key_value_storage}
use yonderboy.FilePersistenceManager
use yonderboy.FileStream
use yonderboy.FileRecords
use yonderboy.Package.{trim_string}
use yonderboy.FileStream.{line_of, open_stream}
use yonderboy.FileStream.Positions.{is_start, is_terminated}
use yonderboy.FileRecords.{list_record, key_value_record, record_text, parse_record}
use yonderboy.FileRecords.RoundTrips.{parse_record-text}
use yonderboy.PersistentStorage.{
  PersistentStorage, make_storage, modify, retrieve, remove, keep_fetched, put_record, put_changed,
  get_records_to_sync,
}
use yonderboy.PersistentStorage.Contents.{retrieve-modify, retrieve-remove}
use yonderboy.PersistentStorage.Locks.{
  Turns, stays, then, idle, modify_starts, modify_ends, syncs, fetches,
}
use yonderboy.PersistentStorage.Current.{IsCurrent, Turns-IsCurrent}
use yonderboy.PersistenceManager.{
  FileInformation, Manager, make_manager, is_queued, registered, get_storage_type,
  storage_has_changes, records_changed,
}
use yonderboy.PersistenceManager.Queue.{IsQueue, QueueReach-IsQueue, tells, here, next}
use yonderboy.FilePersistenceManager.{file_of, write_typed_record}
use yonderboy.FilePersistenceManager.Positions.{IsSound}
use yonderboy.FilePersistenceManager.Records.{HasFile, IsLine, Holds, write_typed_record-Holds}
use yonderboy.FilePersistenceManager.{compact_text, compact_loop}
use yonderboy.Storages.{of_list, World, backend, list_of}
use yonderboy.SyncThread.{sync_pass, synced, sync_records}
use yonderboy.SyncThread.Rounds.{SyncedRound, sync_pass-SyncedRound}
use yonderboy.SyncThread.Ends.{Drained, rest_of, sync_records-Drained}
use yonderboy.SyncThread.Forgotten.{modify-forgotten}

abbrev a_file : FileInformation
a_file = record {
  path = codes "/base/g/i";
  stream = open_stream (codes "old\n");
  key_positions = (pos 0, pos 0) ∷ [];
  next_key = 1;
}

-- One list storage, at 1, with its file at 1.
abbrev a_manager : Manager
a_manager = record (make_manager (codes "/base") true []) {
  list_storages = (codes "g", (codes "i", 1) ∷ []) ∷ [];
  changed_storages = (1, list_storage) ∷ [];
  files = ((codes "g", codes "i"), 1) ∷ [];
  file_heap = (1, a_file) ∷ [];
}

abbrev changed_list : PersistentStorage Bytes
changed_list = record (make_storage (codes "g") (codes "i") list_storage) {
  records = (pos 0, codes "new") ∷ [];
  changed_records = (pos 0, codes "new") ∷ [];
}

abbrev a_world : World
a_world = record { manager = a_manager; storages = (1, of_list changed_list) ∷ []; next_ref = 2 }

a_manager_type : get_storage_type (codes "g") (codes "i") a_manager ≡ list_storage
unfolding get_storage_type registered find bytes_eq
a_manager_type = refl

only_position :
    (k : KeyType) (p : ℤ) → find k a_file.key_positions ≡ some p → (pos 0 ≡ k) × (pos 0 ≡ p)
unfolding find
only_position k p h = ground (arith, int_eq_iff (pos 0) k)

a_file-IsSound : IsSound a_file
a_file-IsSound = record {
  no_eof = refl;
  no_failure = refl;
  terminated = unfold is_terminated in refl;
  starts = λ k p h. (0, sym (only_position k p h).1, unfold is_start in refl, omega arith);
  apart = λ k j p h g. cc ((only_position k p h).0, (only_position j p g).0);
}

a_manager-HasFile : HasFile (codes "g") (codes "i") a_manager
a_manager-HasFile = record {
  pointer = 1;
  file = a_file;
  is_open = unfold file_of find bytes_eq in refl;
  sound = a_file-IsSound;
}

new-IsLine : IsLine (list_record (codes "new"))
new-IsLine = record { storable = tt; no_newline = λ text h. lacks text (unfold record_text in h) }
  where
    lacks : (text : Bytes) → some (codes "new") ≡ some text → All (λ c. c ≢ b'\n') text
    lacks text h =
        let e : codes "new" ≡ text = ground arith in
        subst (All (λ c. c ≢ b'\n')) e
          (λ e. omega arith, (λ e. omega arith, (λ e. omega arith, tt)))

write_typed_record-Holds_example :
    (n : Manager) × (write_typed_record
        (codes "g")
        (codes "i")
        (pos 0)
        (list_record (codes "new"))
        a_manager
      ≡ some n)
    × Holds (codes "g") (codes "i") (pos 0) (list_record (codes "new")) a_manager n
write_typed_record-Holds_example =
    write_typed_record-Holds (codes "g") (codes "i") (pos 0) (list_record (codes "new")) a_manager
      a_manager-HasFile new-IsLine a_manager_type

sync_pass-SyncedRound_example :
    (v : World) × (sync_pass a_world ≡ synced v) × SyncedRound 1 (of_list changed_list) [] a_world v
sync_pass-SyncedRound_example =
    sync_pass-SyncedRound 1 list_storage [] (of_list changed_list) a_world refl (omega arith)
      (unfold find in refl) (unfold find in refl) a_manager-HasFile (tt, tt)
      ((new-IsLine, a_manager_type), tt)

sync_records-Drained_example :
    (v : World) × (sync_records 2 a_world ≡ rest_of false v)
    × Drained ((1, list_storage) ∷ []) a_world v
sync_records-Drained_example = sync_records-Drained ((1, list_storage) ∷ []) a_world refl (
  λ e. omega arith,
  unfold is_queued in refl,
  (of_list changed_list, unfold find in refl, ((codes "new", unfold record_text in refl), tt)),
  tt,
)

parse_record-text_example :
    (text : Bytes) × (record_text (key_value_record (codes "k") (codes "v w")) ≡ some text)
    × (parse_record key_value_storage text ≡ some (key_value_record (codes "k") (codes "v w")))
unfolding is_space
parse_record-text_example =
    parse_record-text (key_value_record (codes "k") (codes "v w"))
      ((refl, refl), (refl, refl), (λ e. omega arith, tt))

retrieve-modify_example :
    (retrieve
        (backend list_of 1)
        []
        (pos 0)
        (modify (backend list_of 1) (pos 0) (codes "x") true (a_manager, changed_list))
      ≡ (
        (codes "x", false),
        modify (backend list_of 1) (pos 0) (codes "x") true (a_manager, changed_list),
      ))
    × ((k : KeyType) (v : Bytes)
        → k ≢ pos 0
        → find k changed_list.records ≡ some v
        → retrieve
            (backend list_of 1)
            []
            k
            (modify (backend list_of 1) (pos 0) (codes "x") true (a_manager, changed_list))
          ≡ (
            (v, false),
            modify (backend list_of 1) (pos 0) (codes "x") true (a_manager, changed_list),
          ))
retrieve-modify_example =
    retrieve-modify (backend list_of 1) [] (codes "x") (pos 0) true a_manager changed_list refl

-- The manager's file has the removed record still.
the_answer :
    (backend list_of 1).retrieve_record
      (codes "g")
      (codes "i")
      (pos 0)
      ((backend list_of 1).records_changed list_storage a_manager)
    ≡ (
      some (codes "old"),
      ((backend list_of 1).retrieve_record
          (codes "g")
          (codes "i")
          (pos 0)
          ((backend list_of 1).records_changed list_storage a_manager)).1,
    )
unfolding backend FilePersistenceManager.retrieve_record file_of find records_changed
    storage_has_changes is_queued bytes_eq FilePersistenceManager.parsed
    FilePersistenceManager.read_key int_eq FileStream.getline FileStream.seekg line_of parse_record
    get_storage_type registered FileRecords.parse_list_record trim_string find_byte
    find_first_not_of find_last_not_of is_space
the_answer = refl

retrieve-remove_example :
    ((retrieve
        (backend list_of 1)
        []
        (pos 0)
        (remove (backend list_of 1) (pos 0) (a_manager, changed_list))).0
      ≡ (codes "old", false))
    × (find
          (pos 0)
          (retrieve
            (backend list_of 1)
            []
            (pos 0)
            (remove (backend list_of 1) (pos 0) (a_manager, changed_list))).1.1.records
        ≡ some (codes "old"))
    × ((k : KeyType)
        → k ≢ pos 0
        → find k
            (retrieve
              (backend list_of 1)
              []
              (pos 0)
              (remove (backend list_of 1) (pos 0) (a_manager, changed_list))).1.1.records
          ≡ find k changed_list.records)
retrieve-remove_example =
    retrieve-remove (backend list_of 1) [] (pos 0) a_manager _ (some (codes "old")) changed_list
      refl the_answer

-- A record is put under a new key; between the two locks the syncing thread takes what waits, and
-- a reader brings an older record of the key.
abbrev two_locks : PersistentStorage Bytes
two_locks =
    put_changed (pos 1) (codes "x")
      (keep_fetched (backend list_of 1) [] (pos 1)
        (get_records_to_sync (backend list_of 1) a_manager
          (put_record (pos 1) (codes "x") changed_list)).1
        (some (codes "stale"), a_manager)).1.1

two_locks-Turns :
    Turns
      (backend list_of 1)
      idle
      a_manager
      changed_list
      idle
      ((backend list_of 1).records_changed two_locks.type a_manager)
      two_locks
unfolding keep_fetched put_changed
two_locks-Turns =
    then
      (then (then (then stays (modify_starts (pos 1) (codes "x") refl)) syncs)
        (fetches [] (pos 1) (some (codes "stale"))))
      (modify_ends (pos 1) (codes "x"))

Turns-IsCurrent_example : IsCurrent two_locks
Turns-IsCurrent_example = Turns-IsCurrent (backend list_of 1) (λ k v h. h) two_locks-Turns

a_manager-IsQueue : IsQueue a_manager
unfolding is_queued
a_manager-IsQueue = record { distinct = (refl, tt); not_current = refl; not_null = refl }

QueueReach-IsQueue_example : IsQueue (records_changed 2 list_storage a_manager)
QueueReach-IsQueue_example =
    QueueReach-IsQueue (next here (tells 2 list_storage (λ e. omega arith))) a_manager-IsQueue

abbrev while_syncing : Manager
while_syncing = record a_manager { changed_storages = []; currently_syncing_storage = 1 }

modify-forgotten_example :
    let (n, t) =
      modify (backend list_of 1) (pos 0) (codes "x") true (while_syncing, changed_list) in
    (find (pos 0) t.changed_records ≡ some (codes "x"))
    × (storage_has_changes 1 (record n { currently_syncing_storage = 0 }) ≡ false)
modify-forgotten_example =
    modify-forgotten list_of 1 (pos 0) (codes "x") changed_list while_syncing (λ e. omega arith)
      refl refl (unfold is_queued in refl)

compacted : compact_text (codes "a\n   \nb") ≡ codes "a\nb\n"
unfolding compact_text compact_loop line_of
compacted = refl
