-- ===== src/Package/Lines.antt =====
-- The text that `Package::serialize` of daemon/src/package.cpp writes is a list of lines.
use yonderboy.Prelude.{
  some, List, [], ◌∷◌, ◌++◌, ◌≡◌, ◌≢◌, refl, sym, ap, ◌∙◌, Bytes, All, All-append, map,
  if◌then◌else◌, append_assoc, append-nil,
}
use yonderboy.Prelude.Text.{is_empty}
use yonderboy.Package.Wire.{
  Lacks, IsClean, IsJsonLine, IsWireSafe, entry_line, entry_line-Lacks, json_part,
  make_package-contents, serialize-contents,
}
use yonderboy.Package.{KeyValueMap, serialize_entries, serialize, make_package}

-- A line of a package's text, without its newline.
pub record IsLine (line : Bytes) : Type 0 where
  pub some_text : line ≢ []
  pub no_newline : Lacks b'\n' line

abbrev pub unlines : List Bytes → Bytes
unlines [] = []
unlines (l ∷ ls) = (l ++ b'\n' ∷ []) ++ unlines ls

-- The text of a package is a list of lines.
pub record HasLines (text : Bytes) : Type 0 where
  pub first : Bytes
  pub others : List Bytes
  pub first_line : IsLine first
  pub other_lines : All IsLine others
  pub whole : text ≡ unlines (first ∷ others)

unlines-append : (xs ys : List Bytes) → unlines (xs ++ ys) ≡ unlines xs ++ unlines ys
unlines-append [] ys = refl
unlines-append (x ∷ xs) ys =
    ap (◌++◌ (x ++ b'\n' ∷ [])) (unlines-append xs ys)
    ∙ sym (append_assoc (x ++ b'\n' ∷ []) (unlines xs) (unlines ys))

serialize_entries-unlines : (m : KeyValueMap) → serialize_entries m ≡ unlines (map entry_line m)
unfolding serialize_entries entry_line
serialize_entries-unlines [] = refl
serialize_entries-unlines ((k, v) ∷ m) = simp (append_assoc, serialize_entries-unlines m)

json_lines : Bytes → List Bytes
json_lines json = if is_empty json then [] else json ∷ []

json_part-unlines : (json : Bytes) → json_part json ≡ unlines (json_lines json)
unfolding json_part json_lines
json_part-unlines [] = refl
json_part-unlines (c ∷ cs) = sym (append-nil ((c ∷ cs) ++ b'\n' ∷ []))

json_lines-IsLine : (json : Bytes) → IsJsonLine json → All IsLine (json_lines json)
unfolding json_lines
json_lines-IsLine [] h = tt
json_lines-IsLine (c ∷ cs) h = (record { some_text = (cc); no_newline = h.0 }, tt)

entry_line-ne-nil : (k v : Bytes) → entry_line (k, v) ≢ []
unfolding entry_line
entry_line-ne-nil [] v e = cc
entry_line-ne-nil (c ∷ k) v e = cc

entries-IsLine : (m : KeyValueMap) → All IsClean m → All IsLine (map entry_line m)
entries-IsLine [] h = tt
entries-IsLine ((k, v) ∷ m) h = (
  record { some_text = entry_line-ne-nil k v; no_newline = entry_line-Lacks k v h.0 },
  entries-IsLine m h.1,
)

-- A package with an entry is written as lines that are not empty.
pub serialize-HasLines :
    (m : KeyValueMap) (json : Bytes)
    → m ≢ []
    → IsWireSafe m json
    → HasLines (serialize (make_package (some m) json))
serialize-HasLines [] json ne w = absurd (ne refl)
serialize-HasLines ((k, v) ∷ m) json ne w =
    let all = entries-IsLine ((k, v) ∷ m) w.clean in
    let (e, f) = make_package-contents ((k, v) ∷ m) json in
    record {
      first = entry_line (k, v);
      others = map entry_line m ++ json_lines json;
      first_line = all.0;
      other_lines =
          All-append IsLine (map entry_line m) (json_lines json) all.1
            (json_lines-IsLine json w.json_line);
      whole =
          serialize-contents (make_package (some ((k, v) ∷ m)) json) ((k, v) ∷ m) json e f
          ∙ ap (λ x. x ++ json_part json) (serialize_entries-unlines ((k, v) ∷ m))
          ∙ ap (◌++◌ (unlines (map entry_line ((k, v) ∷ m)))) (json_part-unlines json)
          ∙ sym (unlines-append (map entry_line ((k, v) ∷ m)) (json_lines json));
    }
