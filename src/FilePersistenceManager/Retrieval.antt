-- ===== src/FilePersistenceManager/Retrieval.antt =====
-- daemon/src/file_persistence_manager.cpp: a record that `writeRecord` puts into a file is read back
-- by `retrieveRecord`, and the other records stay.
use yonderboy.Prelude.{
  ℕ, ◌+◌, ◌<◌, true, some, [], ◌∷◌, ◌++◌, ◌≡◌, ◌≢◌, refl, sym, ap, subst, ◌∙◌, arith, Bytes, length,
  if◌then◌else◌, inl, inr, Option-cases, Bool-cases, length-append,
}
use yonderboy.Prelude.Map.{find, insert, erase, find-replaced}
use yonderboy.Prelude.Signed.{ℤ, pos, int_key, int_eq, int_eq_iff}
use yonderboy.Macros.{KeyType}
use yonderboy.Package.Wire.{Lacks}
use yonderboy.PersistentStorage.Contents.{int_eq_refl, int_eq-ne}
use yonderboy.FileStream.Positions.{
  line_at, blank_at, is_start, line_at-blank_at, blank_at-length, is_start-blank_at,
  is_terminated-blank_at, line_at_end, is_start_end, is_start-append, line_at-append,
  is_terminated-append, line_at-text,
}
use yonderboy.PersistenceManager.{FileInformation}
use yonderboy.FilePersistenceManager.{read_key, delete_key, append_record}
use yonderboy.FilePersistenceManager.Positions.{
  IsSound, with_stream, read_key_at, read_key_absent, delete_key_at, delete_key_absent,
  append_record_at,
}

abbrev added : KeyType → Bytes → ℕ → FileInformation → FileInformation
added k text m file = record (with_stream (file.stream.content ++ (text ++ b'\n' ∷ [])) m file) {
  key_positions = insert k (pos (length file.stream.content)) (erase k file.key_positions);
}

blanked-IsSound :
    (n m : ℕ) (file : FileInformation)
    → IsSound file
    → IsSound (with_stream (blank_at n file.stream.content) m file)
blanked-IsSound n m file h = record {
  no_eof = refl;
  no_failure = refl;
  terminated = is_terminated-blank_at file.stream.content n h.terminated;
  starts = λ k p e.
      let (q, f, g, l) = h.starts k p e in
      (
        q,
        f,
        is_start-blank_at file.stream.content n q g,
        omega (arith, blank_at-length n file.stream.content),
      );
  apart = h.apart;
}

module _ (key : KeyType) (text : Bytes) (m : ℕ) (file : FileInformation) (h : IsSound file) where
  position_of :
      (k : KeyType)
      → find k (added key text m file).key_positions ≡ (
          if int_eq key k
          then some (pos (length file.stream.content))
          else find k file.key_positions)
  position_of k = find-replaced key k (pos (length file.stream.content)) file.key_positions

  added-starts :
      (k : KeyType) (p : ℤ)
      → find k (added key text m file).key_positions ≡ some p
      → (n : ℕ) × (p ≡ pos n)
        × (is_start n (added key text m file).stream.content ≡ true)
        × (n < length (added key text m file).stream.content)
  added-starts k p e = elim (Bool-cases (int_eq key k)) [
    | inl b ↦
        let f : pos (length file.stream.content) ≡ p = ground (arith, position_of k) in
        (
          length file.stream.content,
          sym f,
          is_start_end file.stream.content (text ++ b'\n' ∷ []) h.terminated,
          omega (
            arith,
            length-append file.stream.content (text ++ b'\n' ∷ []),
            length-append text (b'\n' ∷ []),
          ),
        )
    | inr b ↦
        let (n, f, g, l) = h.starts k p (ground (arith, position_of k)) in
        (
          n,
          f,
          is_start-append file.stream.content (text ++ b'\n' ∷ []) n g,
          omega (arith, length-append file.stream.content (text ++ b'\n' ∷ [])),
        )
  ]

  not_at_end : (k : KeyType) → find k file.key_positions ≢ some (pos (length file.stream.content))
  not_at_end k e =
      let (n, f, g, l) = h.starts k (pos (length file.stream.content)) e in ground arith

  -- The new key is alone at its position.
  added_alone :
      (k j : KeyType) (p : ℤ)
      → int_eq key k ≡ true
      → find k (added key text m file).key_positions ≡ some p
      → find j (added key text m file).key_positions ≡ some p
      → k ≡ j
  added_alone k j p a e f = elim (Bool-cases (int_eq key j)) [
    | inl b ↦ ground (arith, int_eq_iff key k, int_eq_iff key j)
    | inr b ↦ absurd (not_at_end j (ground (arith, position_of k, position_of j)))
  ]

  added-apart :
      (k j : KeyType) (p : ℤ)
      → find k (added key text m file).key_positions ≡ some p
      → find j (added key text m file).key_positions ≡ some p
      → k ≡ j
  added-apart k j p e f = elim (Bool-cases (int_eq key k)) [
    | inl a ↦ added_alone k j p a e f
    | inr a ↦ elim (Bool-cases (int_eq key j)) [
      | inl b ↦ sym (added_alone j k p b f e)
      | inr b ↦ h.apart k j p (ground (arith, position_of k)) (ground (arith, position_of j))
    ]
  ]

  added-IsSound : IsSound (added key text m file)
  added-IsSound = record {
    no_eof = refl;
    no_failure = refl;
    terminated = is_terminated-append file.stream.content text;
    starts = added-starts;
    apart = added-apart;
  }

  added-reads : Lacks b'\n' text → (read_key key (added key text m file)).0 ≡ some text
  added-reads clean =
      ap (λ r. r.0)
        (read_key_at key (length file.stream.content) (added key text m file) added-IsSound
          (position_of key ∙ rw (int_eq_refl key) refl)
          (omega (
            arith,
            length-append file.stream.content (text ++ b'\n' ∷ []),
            length-append text (b'\n' ∷ []),
          )))
      ∙ ap some (line_at_end file.stream.content (text ++ b'\n' ∷ []) ∙ line_at-text text [] clean)

  added-keeps :
      (k : KeyType) → k ≢ key → (read_key k (added key text m file)).0 ≡ (read_key k file).0
  added-keeps k ne = elim (Option-cases (find k file.key_positions)) [
    | inl e ↦
        ap (λ r. r.0) (read_key_absent k (added key text m file) (position ∙ e))
        ∙ sym (ap (λ r. r.0) (read_key_absent k file e))
    | inr (p, e) ↦
        let (n, f, g, l) = h.starts k p e in
        let at : find k file.key_positions ≡ some (pos n) = e ∙ ap some f in
        ap (λ r. r.0)
          (read_key_at k n (added key text m file) added-IsSound (position ∙ at)
            (omega (arith, length-append file.stream.content (text ++ b'\n' ∷ []))))
        ∙ ap some (line_at-append file.stream.content (text ++ b'\n' ∷ []) n h.terminated l)
        ∙ sym (ap (λ r. r.0) (read_key_at k n file h at l))
  ]
    where
      position : find k (added key text m file).key_positions ≡ find k file.key_positions
      position = position_of k ∙ rw (int_eq-ne key k (λ q. ne (sym q))) refl

-- What `deleteRecord` leaves of a file: it is sound, and reads the other keys as before.
record Deleted (key : KeyType) (file g : FileInformation) : Type 0 where
  sound : IsSound g
  keeps : (k : KeyType) → k ≢ key → (read_key k g).0 ≡ (read_key k file).0

blanked-keeps :
    (key k : KeyType) (n m : ℕ) (file : FileInformation) (h : IsSound file)
    → find key file.key_positions ≡ some (pos n)
    → is_start n file.stream.content ≡ true
    → k ≢ key
    → (read_key k (with_stream (blank_at n file.stream.content) m file)).0 ≡ (read_key k file).0
blanked-keeps key k n m file h e start ne = elim (Option-cases (find k file.key_positions)) [
  | inl f ↦
      ap (λ r. r.0) (read_key_absent k (with_stream (blank_at n file.stream.content) m file) f)
      ∙ sym (ap (λ r. r.0) (read_key_absent k file f))
  | inr (p, f) ↦
      let (q, g, starts, l) = h.starts k p f in
      let at : find k file.key_positions ≡ some (pos q) = f ∙ ap some g in
      ap (λ r. r.0)
        (read_key_at k q (with_stream (blank_at n file.stream.content) m file)
          (blanked-IsSound n m file h) at (omega (arith, blank_at-length n file.stream.content, l)))
      ∙ ap some (
          line_at-blank_at file.stream.content n q start starts
            (λ same. ne (h.apart k key (pos q) at (e ∙ ap (λ x. some (pos x)) same))))
      ∙ sym (ap (λ r. r.0) (read_key_at k q file h at l))
]

delete_key-Deleted :
    (key : KeyType) (file : FileInformation) → IsSound file → Deleted key file (delete_key key file)
delete_key-Deleted key file h = elim (Option-cases (find key file.key_positions)) [
  | inl e ↦
      subst (Deleted key file) (sym (delete_key_absent key file e))
        (record { sound = h; keeps = λ k ne. refl })
  | inr (p, e) ↦
      let (n, f, start, l) = h.starts key p e in
      let at : find key file.key_positions ≡ some (pos n) = e ∙ ap some f in
      let m = n + length (line_at n file.stream.content) in
      subst (Deleted key file) (sym (delete_key_at key n file h at l)) (record {
        sound = blanked-IsSound n m file h;
        keeps = λ k. blanked-keeps key k n m file h at start;
      })
]

-- What `writeRecord` makes of a file.
pub record Written (key : KeyType) (text : Bytes) (file g : FileInformation) : Type 0 where
  pub sound : IsSound g
  pub reads : (read_key key g).0 ≡ some text
  pub keeps : (k : KeyType) → k ≢ key → (read_key k g).0 ≡ (read_key k file).0

pub append_record-Written :
    (key : KeyType) (text : Bytes) (file : FileInformation)
    → IsSound file
    → Lacks b'\n' text
    → Written key text file (append_record key text (delete_key key file))
append_record-Written key text file h clean =
    let d = delete_key-Deleted key file h in
    let g = delete_key key file in
    let m = length g.stream.content + length text + 1 in
    subst (Written key text file)
      (sym (append_record_at key text g d.sound.no_eof d.sound.no_failure))
      (record {
        sound = added-IsSound key text m g d.sound;
        reads = added-reads key text m g d.sound clean;
        keeps = λ k ne. added-keeps key text m g d.sound k ne ∙ d.keeps k ne;
      })
