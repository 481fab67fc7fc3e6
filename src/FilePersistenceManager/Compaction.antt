-- ===== src/FilePersistenceManager/Compaction.antt =====
-- daemon/src/file_persistence_manager.cpp (`compactFile`): what compaction leaves of a file.
use yonderboy.Prelude.{
  ℕ, zero, suc, ◌+◌, ◌<◌, true, false, List, [], ◌∷◌, ◌++◌, ◌≡◌, refl, sym, ap, ◌∙◌, arith, Bytes,
  All, length, drop, ◌==◌, if◌then◌else◌, inl, inr, Bool-cases, subst,
}
use yonderboy.Package.Wire.{Lacks}
use yonderboy.FileStream.{line_of, lines_of, add_first}
use yonderboy.FilePersistenceManager.{is_blank_line, compact_loop, compact_text}

-- The lines with something on them.
unfoldable pub filled : List Bytes → List Bytes
filled [] = []
filled (l ∷ ls) = if is_blank_line l then filled ls else l ∷ filled ls

-- Each line with its newline.
unfoldable pub joined : List Bytes → Bytes
joined [] = []
joined (l ∷ ls) = l ++ (b'\n' ∷ joined ls)

line_of_end : (c : ℕ) (s : Bytes) → c == b'\n' ≡ true → line_of (c ∷ s) ≡ ([], true)
unfolding line_of
line_of_end c s h = rw h refl

line_of_more :
    (c : ℕ) (s : Bytes) → c == b'\n' ≡ false → line_of (c ∷ s) ≡ (c ∷ (line_of s).0, (line_of s).1)
unfolding line_of
line_of_more c s h = rw h refl

lines_of_end : (c : ℕ) (s : Bytes) → c == b'\n' ≡ true → lines_of (c ∷ s) ≡ [] ∷ lines_of s
unfolding lines_of
lines_of_end c s h = rw h refl

lines_of_more :
    (c : ℕ) (s : Bytes) → c == b'\n' ≡ false → lines_of (c ∷ s) ≡ add_first c (lines_of s)
unfolding lines_of
lines_of_more c s h = rw h refl

rest_of_text : Bytes → Bytes
rest_of_text s = drop (length (line_of s).0 + 1) s

rest_more : (c : ℕ) (s : Bytes) → c == b'\n' ≡ false → rest_of_text (c ∷ s) ≡ rest_of_text s
unfolding rest_of_text
rest_more c s h =
    let e : suc (length (line_of s).0) + 1 ≡ suc (length (line_of s).0 + 1) = omega arith in
    ap (λ x. drop (length x.0 + 1) (c ∷ s)) (line_of_more c s h) ∙ ap (λ n. drop n (c ∷ s)) e

rest_end : (c : ℕ) (s : Bytes) → c == b'\n' ≡ true → rest_of_text (c ∷ s) ≡ s
unfolding rest_of_text
rest_end c s h = ap (λ x. drop (length x.0 + 1) (c ∷ s)) (line_of_end c s h)

lines_found :
    (text : Bytes)
    → (line_of text).1 ≡ true
    → lines_of text ≡ (line_of text).0 ∷ lines_of (rest_of_text text)
lines_found [] h = absurd (unfold line_of in ground arith)
lines_found (c ∷ s) h = elim (Bool-cases (c == b'\n')) [
  | inl e ↦ lines_of_end c s e ∙ cc (rest_end c s e, ap (λ x. x.0) (line_of_end c s e))
  | inr e ↦
      lines_of_more c s e
      ∙ ap (add_first c) (lines_found s (sym (ap (λ x. x.1) (line_of_more c s e)) ∙ h))
      ∙ cc (rest_more c s e, ap (λ x. x.0) (line_of_more c s e))
]

lines_last : (text : Bytes) → (line_of text).1 ≡ false → lines_of text ≡ (line_of text).0 ∷ []
lines_last [] h = unfold lines_of line_of in refl
lines_last (c ∷ s) h = elim (Bool-cases (c == b'\n')) [
  | inl e ↦ absurd (ground (arith, ap (λ x. x.1) (line_of_end c s e)))
  | inr e ↦
      lines_of_more c s e
      ∙ ap (add_first c) (lines_last s (sym (ap (λ x. x.1) (line_of_more c s e)) ∙ h))
      ∙ cc (ap (λ x. x.0) (line_of_more c s e))
]

rest_shorter : (text : Bytes) → (line_of text).1 ≡ true → length (rest_of_text text) < length text
rest_shorter [] h = absurd (unfold line_of in ground arith)
rest_shorter (c ∷ s) h = elim (Bool-cases (c == b'\n')) [
  | inl e ↦ omega (arith, ap length (rest_end c s e))
  | inr e ↦ omega (
    arith,
    ap length (rest_more c s e),
    rest_shorter s (sym (ap (λ x. x.1) (line_of_more c s e)) ∙ h),
  )
]

-- One line, and what stands behind it.
emit : Bytes → Bytes → Bytes
emit line rest = if is_blank_line line then rest else line ++ (b'\n' ∷ rest)

emit-joined :
    (line : Bytes) (ls : List Bytes) → emit line (joined (filled ls)) ≡ joined (filled (line ∷ ls))
unfolding emit joined filled
emit-joined line ls = elim (Bool-cases (is_blank_line line)) [
  | inl e ↦ rw e refl
  | inr e ↦ rw e refl
]

joined_nothing : joined (filled []) ≡ []
unfolding joined filled
joined_nothing = refl

emit_last : (line : Bytes) → emit line [] ≡ joined (filled (line ∷ []))
emit_last line = ap (emit line) (sym joined_nothing) ∙ emit-joined line []

loop_found :
    (fuel : ℕ) (text : Bytes)
    → (line_of text).1 ≡ true
    → compact_loop (suc fuel) text ≡ emit (line_of text).0 (compact_loop fuel (rest_of_text text))
unfolding compact_loop emit rest_of_text
loop_found fuel text h = rw (compact_loop, h) refl

loop_last :
    (fuel : ℕ) (text : Bytes)
    → (line_of text).1 ≡ false
    → compact_loop (suc fuel) text ≡ emit (line_of text).0 []
unfolding compact_loop emit
loop_last fuel text h = rw (compact_loop, h) refl

loop-joined :
    (fuel : ℕ) (text : Bytes)
    → length text < fuel
    → compact_loop fuel text ≡ joined (filled (lines_of text))
loop-joined zero text h = absurd (omega arith)
loop-joined (suc fuel) text h = elim (Bool-cases (line_of text).1) [
  | inl e ↦
      loop_found fuel text e
      ∙ ap (emit (line_of text).0)
          (loop-joined fuel (rest_of_text text) (omega (arith, rest_shorter text e)))
      ∙ emit-joined (line_of text).0 (lines_of (rest_of_text text))
      ∙ ap (λ ls. joined (filled ls)) (sym (lines_found text e))
  | inr e ↦
      loop_last fuel text e
      ∙ emit_last (line_of text).0
      ∙ ap (λ ls. joined (filled ls)) (sym (lines_last text e))
]

compact_text-joined : (text : Bytes) → compact_text text ≡ joined (filled (lines_of text))
unfolding compact_text
compact_text-joined text = loop-joined (suc (length text)) text (omega arith)

add_first-Lacks :
    (c : ℕ) (ls : List Bytes)
    → c == b'\n' ≡ false
    → All (Lacks b'\n') ls
    → All (Lacks b'\n') (add_first c ls)
add_first-Lacks c [] e h = ((ground arith, tt), tt)
add_first-Lacks c (l ∷ ls) e h = ((ground arith, h.0), h.1)

lines_of-Lacks : (text : Bytes) → All (Lacks b'\n') (lines_of text)
lines_of-Lacks [] = unfold lines_of in (tt, tt)
lines_of-Lacks (c ∷ s) =
    let ih = lines_of-Lacks s in
    elim (Bool-cases (c == b'\n')) [
      | inl e ↦ subst (All (Lacks b'\n')) (sym (lines_of_end c s e)) (tt, ih)
      | inr e ↦
          subst (All (Lacks b'\n')) (sym (lines_of_more c s e))
            (add_first-Lacks c (lines_of s) e ih)
    ]

filled_blank : (l : Bytes) (ls : List Bytes) → is_blank_line l ≡ true → filled (l ∷ ls) ≡ filled ls
unfolding filled
filled_blank l ls h = rw h refl

filled_other :
    (l : Bytes) (ls : List Bytes) → is_blank_line l ≡ false → filled (l ∷ ls) ≡ l ∷ filled ls
unfolding filled
filled_other l ls h = rw h refl

filled-Lacks : (ls : List Bytes) → All (Lacks b'\n') ls → All (Lacks b'\n') (filled ls)
filled-Lacks [] h = unfold filled in tt
filled-Lacks (l ∷ ls) h =
    let ih = filled-Lacks ls h.1 in
    elim (Bool-cases (is_blank_line l)) [
      | inl e ↦ subst (All (Lacks b'\n')) (sym (filled_blank l ls e)) ih
      | inr e ↦ subst (All (Lacks b'\n')) (sym (filled_other l ls e)) (h.0, ih)
    ]

filled_again : (ls : List Bytes) → filled (filled ls ++ [] ∷ []) ≡ filled ls
filled_again [] = unfold filled in refl
filled_again (l ∷ ls) = elim (Bool-cases (is_blank_line l)) [
  | inl e ↦
      ap (λ x. filled (x ++ [] ∷ [])) (filled_blank l ls e)
      ∙ filled_again ls
      ∙ sym (filled_blank l ls e)
  | inr e ↦
      ap (λ x. filled (x ++ [] ∷ [])) (filled_other l ls e)
      ∙ filled_other l (filled ls ++ [] ∷ []) e
      ∙ ap (◌∷◌ l) (filled_again ls)
      ∙ sym (filled_other l ls e)
]

lines_of_line : (l rest : Bytes) → Lacks b'\n' l → lines_of (l ++ b'\n' ∷ rest) ≡ l ∷ lines_of rest
lines_of_line [] rest h = lines_of_end b'\n' rest refl
lines_of_line (c ∷ l) rest h =
    lines_of_more c (l ++ b'\n' ∷ rest) (ground (arith, h.0))
    ∙ ap (add_first c) (lines_of_line l rest h.1)

joined_cons : (l : Bytes) (ls : List Bytes) → joined (l ∷ ls) ≡ l ++ b'\n' ∷ joined ls
unfolding joined
joined_cons l ls = refl

lines_of-joined : (ls : List Bytes) → All (Lacks b'\n') ls → lines_of (joined ls) ≡ ls ++ [] ∷ []
lines_of-joined [] h = unfold lines_of joined in refl
lines_of-joined (l ∷ ls) h =
    ap lines_of (joined_cons l ls)
    ∙ lines_of_line l (joined ls) h.0
    ∙ ap (◌∷◌ l) (lines_of-joined ls h.1)

-- Compaction keeps the lines of a file that are not empty and not all blanks, in order, and ends
-- each with a newline; a second compaction changes nothing.
pub compact_text-lines :
    (text : Bytes)
    → (lines_of (compact_text text) ≡ filled (lines_of text) ++ [] ∷ [])
      × (compact_text (compact_text text) ≡ compact_text text)
compact_text-lines text =
    let once =
      ap lines_of (compact_text-joined text)
      ∙ lines_of-joined (filled (lines_of text))
          (filled-Lacks (lines_of text) (lines_of-Lacks text)) in
    (
      once,
      compact_text-joined (compact_text text)
          ∙ ap (λ x. joined (filled x)) once
          ∙ ap joined (filled_again (lines_of text))
          ∙ sym (compact_text-joined text),
    )
