-- ===== src/Package/Wire.antt =====
-- `Package::serialize` and `Package::constructKeyValueMap` of daemon/src/package.cpp: what one
-- program writes, the other reads.
use yonderboy.Prelude.{
  ℕ, zero, suc, ◌+◌, ◌≤◌, false, not, some, [], ◌∷◌, ◌++◌, ◌≡◌, ◌≢◌, refl, sym, ap, ◌∙◌, arith,
  Bytes, All, length, if◌then◌else◌, append-nil, append_assoc, length-append, take-length_append,
  drop-length_add, bytes_key, All-append,
}
use yonderboy.Prelude.Text.{
  codes, find_byte, is_empty, is_space, decimal, IsDigits, decimal-IsDigits, is_space-digit,
}
use yonderboy.Prelude.Map.{insert, IsSorted, insert-All_less, IsSorted-before}
use yonderboy.Macros.{PackageType, command}
use yonderboy.Package.Trim.{IsTrimmed, trim_string-append}
use yonderboy.Package.{
  Package, KeyValueMap, blank_package, first_byte, last_byte, trim_string, serialize_entries,
  serialize, is_json, insert_line, parse_line, parse_lines, construct_key_value_map, set_validity,
  initialize, parse_package, make_package,
}

abbrev pub Lacks : ℕ → Bytes → Type 0
Lacks b = All (λ c. c ≢ b)

-- A key and a value that stand on a line of their own: no newline, no blank at an end, no `=` in
-- the key, and no brace at its start.
pub record IsClean (e : Bytes × Bytes) : Type 0 where
  pub key_trimmed : IsTrimmed e.0
  pub key_no_separator : Lacks b'=' e.0
  pub key_no_newline : Lacks b'\n' e.0
  pub key_no_brace : first_byte e.0 ≢ b'{'
  pub value_trimmed : IsTrimmed e.1
  pub value_no_newline : Lacks b'\n' e.1

last_byte-digit : (c : ℕ) (cs : Bytes) → IsDigits (c ∷ cs) → b'0' ≤ last_byte (c ∷ cs)
last_byte-digit c [] h = h.0.0
last_byte-digit c (d ∷ cs) h = last_byte-digit d cs h.1

digits-IsTrimmed : (s : Bytes) → IsDigits s → IsTrimmed s
digits-IsTrimmed [] h = tt
digits-IsTrimmed (c ∷ cs) h = (is_space-digit c h.0.0, is_space-digit _ (last_byte-digit c cs h))

digits-Lacks : (s : Bytes) → IsDigits s → Lacks b'\n' s
digits-Lacks [] h = tt
digits-Lacks (c ∷ cs) h = ((λ e. omega arith), digits-Lacks cs h.1)

-- An identifier stands on a clean line.
pub id-IsClean : (id : ℕ) → IsClean (codes "id", decimal id)
unfolding is_space
id-IsClean id = record {
  key_trimmed = (refl, refl);
  key_no_separator = omega arith;
  key_no_newline = omega arith;
  key_no_brace = omega arith;
  value_trimmed = digits-IsTrimmed (decimal id) (decimal-IsDigits id);
  value_no_newline = digits-Lacks (decimal id) (decimal-IsDigits id);
}

-- No JSON, or one line in braces.
abbrev pub IsJsonLine : Bytes → Type 0
IsJsonLine [] = Unit
IsJsonLine (c ∷ cs) = Lacks b'\n' (c ∷ cs) × (c ≡ b'{') × (last_byte (c ∷ cs) ≡ b'}')

pub record IsWireSafe (m : KeyValueMap) (json : Bytes) : Type 0 where
  pub sorted : IsSorted m
  pub clean : All IsClean m
  pub json_line : IsJsonLine json

pub find_byte-append :
    (b : ℕ) (s r : Bytes) → Lacks b s → find_byte b (s ++ b ∷ r) ≡ some (length s)
unfolding find_byte
find_byte-append b [] r h = ground arith
find_byte-append b (c ∷ s) r h = ground (arith, find_byte-append b s r h.1)

parse_lines_step :
    (fuel : ℕ) (line rest : Bytes) (out : KeyValueMap × Bytes)
    → Lacks b'\n' line
    → parse_lines (suc fuel) (line ++ b'\n' ∷ rest) out
      ≡ parse_lines fuel rest (parse_line line out)
unfolding parse_lines
parse_lines_step fuel line rest out h = ground (
  arith,
  find_byte-append b'\n' line rest h,
  take-length_append line (b'\n' ∷ rest),
  drop-length_add line b'\n' rest,
)

unfoldable pub entry_line : Bytes × Bytes → Bytes
entry_line (k, v) = k ++ (codes " = " ++ v)

is_json-entry : (k v : Bytes) → first_byte k ≢ b'{' → is_json (entry_line (k, v)) ≡ false
unfolding is_json entry_line
is_json-entry [] v h = refl
is_json-entry (c ∷ k) v h = ground arith

insert_line_at :
    (key value : Bytes) (m : KeyValueMap)
    → Lacks b'=' key
    → insert_line (key ++ b'=' ∷ value) m ≡ insert (trim_string key) (trim_string value) m
unfolding insert_line
insert_line_at key value m h = ground (
  arith,
  find_byte-append b'=' key value h,
  take-length_append key (b'=' ∷ value),
  drop-length_add key b'=' value,
)

pub trim_string-key : (k : Bytes) → IsTrimmed k → trim_string (k ++ b' ' ∷ []) ≡ k
trim_string-key k h = trim_string-append [] k (b' ' ∷ []) tt (unfold is_space in refl, tt) h

pub trim_string-value : (v : Bytes) → IsTrimmed v → trim_string (b' ' ∷ v) ≡ v
trim_string-value v h =
    ap (λ x. trim_string (b' ' ∷ x)) (sym (append-nil v))
    ∙ trim_string-append (b' ' ∷ []) v [] (unfold is_space in refl, tt) tt h

insert_line-entry :
    (k v : Bytes) (m : KeyValueMap)
    → IsClean (k, v)
    → insert_line (entry_line (k, v)) m ≡ insert k v m
unfolding entry_line
insert_line-entry k v m h =
    ap (λ x. insert_line x m) (sym (append_assoc k (b' ' ∷ []) (b'=' ∷ b' ' ∷ v)))
    ∙ insert_line_at (k ++ b' ' ∷ []) (b' ' ∷ v) m
        (All-append (λ c. c ≢ b'=') k (b' ' ∷ []) h.key_no_separator (λ e. omega arith, tt))
    ∙ cc (trim_string-key k h.key_trimmed, trim_string-value v h.value_trimmed)

parse_line-entry :
    (k v : Bytes) (m : KeyValueMap) (json : Bytes)
    → IsClean (k, v)
    → parse_line (entry_line (k, v)) (m, json) ≡ (insert k v m, json)
unfolding parse_line
parse_line-entry k v m json h =
    ground (arith, is_json-entry k v h.key_no_brace, insert_line-entry k v m h)

pub entry_line-Lacks : (k v : Bytes) → IsClean (k, v) → Lacks b'\n' (entry_line (k, v))
unfolding entry_line
entry_line-Lacks k v h =
    All-append (λ c. c ≢ b'\n') k (codes " = " ++ v) h.key_no_newline
      (λ e. omega arith, (λ e. omega arith, (λ e. omega arith, h.value_no_newline)))

-- What the parser has left after the entries, with fuel for all of it.
record AfterEntries (fuel : ℕ) (text rest : Bytes) (out out' : KeyValueMap × Bytes) : Type 0 where
  left : ℕ
  enough : length rest ≤ left
  same : parse_lines fuel text out ≡ parse_lines left rest out'

pub serialize_entries_cons :
    (k v : Bytes) (m : KeyValueMap) (rest : Bytes)
    → serialize_entries ((k, v) ∷ m) ++ rest
      ≡ entry_line (k, v) ++ b'\n' ∷ (serialize_entries m ++ rest)
unfolding serialize_entries entry_line
serialize_entries_cons k v m rest = simp append_assoc

length-entries_cons :
    (k v : Bytes) (m : KeyValueMap) (rest : Bytes)
    → length (serialize_entries ((k, v) ∷ m) ++ rest)
      ≡ suc (length (entry_line (k, v)) + length (serialize_entries m ++ rest))
length-entries_cons k v m rest =
    let text = serialize_entries m ++ rest in
    ap length (serialize_entries_cons k v m rest)
    ∙ omega (arith, length-append (entry_line (k, v)) (b'\n' ∷ text))

parse_lines-entries :
    (m acc : KeyValueMap) (json rest : Bytes) (fuel : ℕ)
    → All IsClean m
    → IsSorted (acc ++ m)
    → length (serialize_entries m ++ rest) ≤ fuel
    → AfterEntries fuel (serialize_entries m ++ rest) rest (acc, json) (acc ++ m, json)
parse_lines-entries [] acc json rest fuel c s h = record {
  left = fuel;
  enough = unfold serialize_entries in h;
  same = rw append-nil (unfold serialize_entries in refl);
}
parse_lines-entries ((k, v) ∷ m) acc json rest zero c s h =
    absurd (omega (arith, length-entries_cons k v m rest))
parse_lines-entries ((k, v) ∷ m) acc json rest (suc fuel) c s h =
    let text = serialize_entries m ++ rest in
    let placed = insert-All_less k v acc (IsSorted-before acc k v m s) in
    let r =
      parse_lines-entries m (acc ++ (k, v) ∷ []) json rest fuel c.1 (rw append_assoc s)
        (omega (arith, length-entries_cons k v m rest)) in
    record {
      left = r.left;
      enough = r.enough;
      same =
          ap (λ t. parse_lines (suc fuel) t (acc, json)) (serialize_entries_cons k v m rest)
          ∙ parse_lines_step fuel (entry_line (k, v)) text (acc, json) (entry_line-Lacks k v c.0)
          ∙ ap (parse_lines fuel text) (parse_line-entry k v acc json c.0)
          ∙ ap (λ x. parse_lines fuel text (x, json)) placed
          ∙ r.same
          ∙ ap (λ x. parse_lines r.left rest (x, json)) (append_assoc acc ((k, v) ∷ []) m);
    }

unfoldable pub json_part : Bytes → Bytes
json_part json = if not (is_empty json) then json ++ b'\n' ∷ [] else []

parse_lines_nil : (fuel : ℕ) (out : KeyValueMap × Bytes) → parse_lines fuel [] out ≡ out
unfolding parse_lines find_byte
parse_lines_nil zero out = refl
parse_lines_nil (suc fuel) out = refl

parse_line-json :
    (c : ℕ) (cs : Bytes) (m : KeyValueMap)
    → IsJsonLine (c ∷ cs)
    → parse_line (c ∷ cs) (m, []) ≡ (m, c ∷ cs)
unfolding parse_line is_json
parse_line-json c cs m h = ground arith

parse_lines-json :
    (json : Bytes) (m : KeyValueMap) (fuel : ℕ)
    → IsJsonLine json
    → length (json_part json) ≤ fuel
    → parse_lines fuel (json_part json) (m, []) ≡ (m, json)
unfolding json_part
parse_lines-json [] m zero h le = unfold parse_lines in refl
parse_lines-json [] m (suc fuel) h le = unfold parse_lines find_byte in refl
parse_lines-json (c ∷ cs) m zero h le = absurd (omega arith)
parse_lines-json (c ∷ cs) m (suc fuel) h le =
    parse_lines_step fuel (c ∷ cs) [] (m, []) h.0
    ∙ parse_lines_nil fuel _
    ∙ parse_line-json c cs m h

-- The parser gets back the entries and the JSON line of what was serialized.
construct_key_value_map-serialize :
    (m : KeyValueMap) (json : Bytes)
    → IsWireSafe m json
    → construct_key_value_map (serialize_entries m ++ json_part json) ≡ (m, json)
unfolding construct_key_value_map
construct_key_value_map-serialize m json w =
    let text = serialize_entries m ++ json_part json in
    let r =
      parse_lines-entries m [] [] (json_part json) (length text) w.clean w.sorted (omega arith) in
    r.same ∙ parse_lines-json json m r.left w.json_line r.enough

pub set_validity-contents :
    (t : PackageType) (p : Package)
    → ((set_validity t p).key_value_map ≡ p.key_value_map) × ((set_validity t p).json ≡ p.json)
unfolding set_validity
set_validity-contents command p = (refl, refl)
set_validity-contents _ p = (refl, refl)

pub make_package-contents :
    (m : KeyValueMap) (json : Bytes)
    → ((make_package (some m) json).key_value_map ≡ m) × ((make_package (some m) json).json ≡ json)
unfolding make_package
make_package-contents m json = set_validity-contents _ _

pub serialize-contents :
    (p : Package) (m : KeyValueMap) (json : Bytes)
    → p.key_value_map ≡ m
    → p.json ≡ json
    → serialize p ≡ serialize_entries m ++ json_part json
unfolding serialize json_part
serialize-contents p m json e f = cc

parse_package_lem :
    (text : Bytes) (m : KeyValueMap) (json : Bytes)
    → construct_key_value_map text ≡ (m, json)
    → parse_package text ≡ make_package (some m) json
unfolding parse_package make_package
parse_package_lem text m json e =
    ap (λ x. initialize (record blank_package { key_value_map = x.0; json = x.1 })) e

-- A package that is made from a sorted map whose keys and values stand on clean lines, and from a
-- JSON line or none, is written as a text that parses to the same package, with its type,
-- identifier and validity.
pub parse_package-serialize :
    (m : KeyValueMap) (json : Bytes)
    → IsWireSafe m json
    → parse_package (serialize (make_package (some m) json)) ≡ make_package (some m) json
parse_package-serialize m json w =
    let (e, f) = make_package-contents m json in
    ap parse_package (serialize-contents (make_package (some m) json) m json e f)
    ∙ parse_package_lem _ m json (construct_key_value_map-serialize m json w)
