-- ===== src/FilePersistenceManager/Positions.antt =====
-- daemon/src/file_persistence_manager.cpp: reading, overwriting and adding the line of a key, on a
-- file whose key positions are sound.
use yonderboy.Prelude.{
  drop-add, ℕ, zero, suc, ◌+◌, ◌≤◌, ◌<◌, true, false, none, some, List, [], ◌∷◌, ◌++◌, ◌≡◌, refl,
  sym, ap, ◌∙◌, arith, Bytes, length, take, drop, length-append, append-nil, append_assoc,
}
use yonderboy.Prelude.Map.{find, insert, erase}
use yonderboy.Prelude.Signed.{ℤ, pos, int_key}
use yonderboy.Macros.{KeyType}
use yonderboy.FileStream.{Stream, line_of, seekg, getline, seekp, seekp_end, tellp, write}
use yonderboy.FileStream.Positions.{
  line_at, blank_at, is_start, is_terminated, line_found, length-blanks,
}
use yonderboy.PersistenceManager.{FileInformation}
use yonderboy.FilePersistenceManager.{read_key, delete_key, append_record, overwrite}

-- A text on which every line ends with a newline, a stream without failures, and key positions that
-- are starts of different lines.
pub record IsSound (file : FileInformation) : Type 0 where
  pub no_eof : file.stream.eof ≡ false
  pub no_failure : file.stream.failed ≡ false
  pub terminated : is_terminated file.stream.content ≡ true
  pub starts :
      (k : KeyType) (p : ℤ)
      → find k file.key_positions ≡ some p
      → (n : ℕ) × (p ≡ pos n)
        × (is_start n file.stream.content ≡ true)
        × (n < length file.stream.content)
  pub apart :
      (k j : KeyType) (p : ℤ)
      → find k file.key_positions ≡ some p
      → find j file.key_positions ≡ some p
      → k ≡ j

abbrev pub good_stream : Bytes → ℕ → Stream
good_stream text n = record { content = text; position = n; eof = false; failed = false }

abbrev pub with_stream : Bytes → ℕ → FileInformation → FileInformation
with_stream text n file = record file { stream = good_stream text n }

getline_at :
    (n : ℕ) (s : Stream)
    → s.failed ≡ false
    → (line_of (drop n s.content)).1 ≡ true
    → getline (seekg (pos n) s)
      ≡ (some (line_at n s.content), good_stream s.content (n + length (line_at n s.content) + 1))
unfolding getline seekg line_at
getline_at n s f h = rw (f, h) refl

overwrite_at :
    (n : ℕ) (line text : Bytes) (m : ℕ)
    → line ≡ line_at n text
    → overwrite (pos n) (some line, good_stream text m)
      ≡ good_stream (blank_at n text) (n + length line)
unfolding overwrite seekp write blank_at
overwrite_at n line text m h =
    rw (length-blanks (length line), drop-add n (length line) text, h) refl

take_all : {A : Type 0} (xs : List A) → take (length xs) xs ≡ xs
take_all [] = refl
take_all (x ∷ xs) = ap (◌∷◌ x) (take_all xs)

drop_all : {A : Type 0} (xs : List A) (n : ℕ) → length xs ≤ n → drop n xs ≡ []
drop_all [] zero h = refl
drop_all [] (suc n) h = refl
drop_all (x ∷ xs) zero h = absurd (omega arith)
drop_all (x ∷ xs) (suc n) h = drop_all xs n (omega arith)

write_end :
    (text line : Bytes)
    → write line (good_stream text (length text))
      ≡ good_stream (text ++ line) (length text + length line)
unfolding write
write_end text line =
    rw (take_all text, drop_all text (length text + length line) (omega arith), append-nil line)
      refl

write_line :
    (text line : Bytes)
    → write (b'\n' ∷ []) (write line (good_stream text (length text)))
      ≡ good_stream (text ++ (line ++ b'\n' ∷ [])) (length text + length line + 1)
write_line text line =
    ap (write (b'\n' ∷ []))
      (write_end text line ∙ ap (good_stream (text ++ line)) (sym (length-append text line)))
    ∙ write_end (text ++ line) (b'\n' ∷ [])
    ∙ ap (λ x. good_stream x (length (text ++ line) + 1)) (append_assoc text line (b'\n' ∷ []))
    ∙ ap (λ n. good_stream (text ++ (line ++ b'\n' ∷ [])) (n + 1)) (length-append text line)

pub read_key_at :
    (k : KeyType) (n : ℕ) (file : FileInformation)
    → IsSound file
    → find k file.key_positions ≡ some (pos n)
    → n < length file.stream.content
    → read_key k file ≡ (
      some (line_at n file.stream.content),
      with_stream file.stream.content (n + length (line_at n file.stream.content) + 1) file,
    )
unfolding read_key
read_key_at k n file h e l =
    rw
      (
        read_key,
        e,
        getline_at n file.stream h.no_failure (line_found file.stream.content n h.terminated l),
      )
      refl

pub read_key_absent :
    (k : KeyType) (file : FileInformation)
    → find k file.key_positions ≡ none
    → read_key k file ≡ (none, file)
unfolding read_key
read_key_absent k file e = rw (read_key, e) refl

pub delete_key_at :
    (k : KeyType) (n : ℕ) (file : FileInformation)
    → IsSound file
    → find k file.key_positions ≡ some (pos n)
    → n < length file.stream.content
    → delete_key k file
      ≡ with_stream
          (blank_at n file.stream.content)
          (n + length (line_at n file.stream.content))
          file
unfolding delete_key
delete_key_at k n file h e l =
    rw
      (
        delete_key,
        e,
        getline_at n file.stream h.no_failure (line_found file.stream.content n h.terminated l),
        overwrite_at n (line_at n file.stream.content) file.stream.content
            (n + length (line_at n file.stream.content) + 1) refl,
      )
      refl

pub delete_key_absent :
    (k : KeyType) (file : FileInformation)
    → find k file.key_positions ≡ none
    → delete_key k file ≡ file
unfolding delete_key
delete_key_absent k file e = rw (delete_key, e) refl

pub append_record_at :
    (k : KeyType) (text : Bytes) (file : FileInformation)
    → file.stream.eof ≡ false
    → file.stream.failed ≡ false
    → append_record k text file
      ≡ record (with_stream
          (file.stream.content ++ (text ++ b'\n' ∷ []))
          (length file.stream.content + length text + 1)
          file) {
            key_positions =
                insert k (pos (length file.stream.content)) (erase k file.key_positions);
          }
unfolding append_record seekp_end tellp
append_record_at k text file e f =
    rw (append_record, f, e, write_line file.stream.content text) refl
