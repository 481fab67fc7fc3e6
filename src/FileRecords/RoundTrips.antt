-- ===== src/FileRecords/RoundTrips.antt =====
-- daemon/src/file_persistence_manager.cpp: a record that is written on a line is read from it.
use yonderboy.Prelude.{
  ℕ, zero, suc, ◌-◌, ◌≤◌, ◌≡◌, ◌≢◌, refl, sym, ap, ◌∙◌, arith, none, some, List, [], ◌∷◌, ◌++◌,
  Bytes, length, take, All, All-append, false, append_assoc, length-append, take-length_append,
  drop-length_add,
}
use yonderboy.Prelude.Text.{codes, find_byte, is_empty}
use yonderboy.Package.{trim_string}
use yonderboy.Package.Trim.{IsTrimmed}
use yonderboy.Package.Wire.{Lacks, find_byte-append, trim_string-key, trim_string-value}
use yonderboy.FileRecords.{
  Record, list_record, key_value_record, table_record, parse_key_value_record, table_entries,
  parse_table_record, parse_record, joined_entries, table_text, record_text, type_of,
  parse_list_record,
}

-- The record survives being written on a line: its parts are trimmed, and no separator stands where
-- it would be taken for one.
abbrev pub IsStorable : Record → Type 0
IsStorable (list_record r) = Unit
IsStorable (key_value_record k v) = IsTrimmed k × IsTrimmed v × Lacks b'=' k
IsStorable (table_record entries) = (entries ≢ []) × All (Lacks b'\t') entries

split_at :
    (key value : Bytes)
    → Lacks b'=' key
    → parse_key_value_record (key ++ b'=' ∷ value) ≡ (trim_string key, trim_string value)
unfolding parse_key_value_record
split_at key value h = ground (
  arith,
  find_byte-append b'=' key value h,
  take-length_append key (b'=' ∷ value),
  drop-length_add key b'=' value,
)

parse_key_value_record-text :
    (k v : Bytes)
    → IsStorable (key_value_record k v)
    → parse_key_value_record (k ++ (codes " = " ++ v)) ≡ (k, v)
parse_key_value_record-text k v h =
    ap parse_key_value_record (sym (append_assoc k (b' ' ∷ []) (b'=' ∷ b' ' ∷ v)))
    ∙ split_at (k ++ b' ' ∷ []) (b' ' ∷ v)
        (All-append (λ c. c ≢ b'=') k (b' ' ∷ []) h.2 (λ e. omega arith, tt))
    ∙ cc (trim_string-key k h.0, trim_string-value v h.1)

-- The entries with tabs between them.
between : Bytes → List Bytes → Bytes
between e [] = e
between e (f ∷ es) = e ++ b'\t' ∷ between f es

joined_entries-between :
    (e : Bytes) (es : List Bytes) → joined_entries (e ∷ es) ≡ between e es ++ b'\t' ∷ []
unfolding joined_entries between
joined_entries-between e [] = refl
joined_entries-between e (f ∷ es) =
    ap (λ x. e ++ b'\t' ∷ x) (joined_entries-between f es)
    ∙ sym (append_assoc e (b'\t' ∷ between f es) (b'\t' ∷ []))

drop_last : (s : Bytes) (c : ℕ) → take (length (s ++ c ∷ []) - 1) (s ++ c ∷ []) ≡ s
drop_last s c =
    ap (λ n. take n (s ++ c ∷ [])) (omega (arith, length-append s (c ∷ [])))
    ∙ take-length_append s (c ∷ [])

not_empty : (s : Bytes) (c : ℕ) → is_empty (s ++ c ∷ []) ≡ false
not_empty [] c = refl
not_empty (d ∷ s) c = refl

table_text-between : (e : Bytes) (es : List Bytes) → table_text (e ∷ es) ≡ some (between e es)
unfolding table_text
table_text-between e es =
    rw (joined_entries-between e es, not_empty (between e es) b'\t')
      (ap some (drop_last (between e es) b'\t'))

find_byte-Lacks : (b : ℕ) (s : Bytes) → Lacks b s → find_byte b s ≡ none
unfolding find_byte
find_byte-Lacks b [] h = refl
find_byte-Lacks b (c ∷ s) h = ground (arith, find_byte-Lacks b s h.1)

last_entry : (fuel : ℕ) (e : Bytes) → Lacks b'\t' e → table_entries fuel e ≡ e ∷ []
unfolding table_entries
last_entry zero e h = refl
last_entry (suc fuel) e h = rw (table_entries, find_byte-Lacks b'\t' e h) refl

next_entry :
    (fuel : ℕ) (e rest : Bytes)
    → Lacks b'\t' e
    → table_entries (suc fuel) (e ++ b'\t' ∷ rest) ≡ e ∷ table_entries fuel rest
unfolding table_entries
next_entry fuel e rest h = ground (
  arith,
  find_byte-append b'\t' e rest h,
  take-length_append e (b'\t' ∷ rest),
  drop-length_add e b'\t' rest,
)

table_entries-between :
    (fuel : ℕ) (e : Bytes) (es : List Bytes)
    → All (Lacks b'\t') (e ∷ es)
    → length (between e es) ≤ fuel
    → table_entries fuel (between e es) ≡ e ∷ es
unfolding between
table_entries-between fuel e [] h l = last_entry fuel e h.0
table_entries-between zero e (f ∷ es) h l =
    absurd (omega (arith, length-append e (b'\t' ∷ between f es)))
table_entries-between (suc fuel) e (f ∷ es) h l =
    next_entry fuel e (between f es) h.0
    ∙ ap (◌∷◌ e) (
        table_entries-between fuel f es h.1 (omega (arith, length-append e (b'\t' ∷ between f es))))

-- A list record, a key and a value with no blanks at their ends and no `=` in the key, and a row
-- of at least one entry with no tabs, each have a text from which they are parsed.
pub parse_record-text :
    (r : Record)
    → IsStorable r
    → (text : Bytes) × (record_text r ≡ some text) × (parse_record (type_of r) text ≡ some r)
unfolding record_text parse_record parse_list_record parse_table_record
parse_record-text (list_record r) h = (r, refl, refl)
parse_record-text (key_value_record k v) h = (
  k ++ (codes " = " ++ v),
  refl,
  ap (λ p. some (key_value_record p.0 p.1)) (parse_key_value_record-text k v h),
)
parse_record-text (table_record []) h = absurd (h.0 refl)
parse_record-text (table_record (e ∷ es)) h = (
  between e es,
  table_text-between e es,
  ap (λ x. some (table_record x))
      (table_entries-between (length (between e es)) e es h.1 (omega arith)),
)
