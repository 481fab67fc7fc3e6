-- ===== src/FileStream/Positions.antt =====
-- Lines at positions of a file: what overwriting a line, or adding one at the end, leaves of the
-- others.
use yonderboy.Prelude.{
  ℕ, zero, suc, ◌≤◌, ◌<◌, Bool, true, false, [], ◌∷◌, ◌++◌, ◌≡◌, ◌≢◌, refl, sym, ap, ◌∙◌, arith,
  Bytes, length, take, drop, ◌==◌, append_assoc, length-append, inl, inr, Bool-cases, All,
}
use yonderboy.FileStream.{line_of}

-- The line at a position.
unfoldable pub line_at : ℕ → Bytes → Bytes
line_at p s = (line_of (drop p s)).0

-- A line starts at the position: at the front, or behind a newline.
unfoldable pub is_start : ℕ → Bytes → Bool
is_start zero s = true
is_start (suc p) [] = false
is_start (suc zero) (c ∷ s) = c == b'\n'
is_start (suc (suc p)) (c ∷ s) = is_start (suc p) s

-- The text is empty or ends with a newline.
unfoldable pub is_terminated : Bytes → Bool
is_terminated [] = true
is_terminated (c ∷ []) = c == b'\n'
is_terminated (c ∷ d ∷ s) = is_terminated (d ∷ s)

abbrev pub blanks : ℕ → Bytes
blanks zero = []
blanks (suc n) = b' ' ∷ blanks n

-- The line at a position overwritten by blanks.
unfoldable pub blank_at : ℕ → Bytes → Bytes
blank_at p s = take p s ++ (blanks (length (line_at p s)) ++ drop (length (line_at p s)) (drop p s))

line_of_newline : (c : ℕ) (s : Bytes) → c == b'\n' ≡ true → (line_of (c ∷ s)).0 ≡ []
unfolding line_of
line_of_newline c s h = rw h refl

line_of_other : (c : ℕ) (s : Bytes) → c == b'\n' ≡ false → (line_of (c ∷ s)).0 ≡ c ∷ (line_of s).0
unfolding line_of
line_of_other c s h = rw h refl

found_newline : (c : ℕ) (s : Bytes) → c == b'\n' ≡ true → (line_of (c ∷ s)).1 ≡ true
unfolding line_of
found_newline c s h = rw h refl

found_other : (c : ℕ) (s : Bytes) → c == b'\n' ≡ false → (line_of (c ∷ s)).1 ≡ (line_of s).1
unfolding line_of
found_other c s h = rw h refl

line_at-suc : (p c : ℕ) (s : Bytes) → line_at (suc p) (c ∷ s) ≡ line_at p s
unfolding line_at
line_at-suc p c s = refl

blank_at-suc : (p c : ℕ) (s : Bytes) → blank_at (suc p) (c ∷ s) ≡ c ∷ blank_at p s
unfolding blank_at line_at
blank_at-suc p c s = refl

blank_at_newline : (c : ℕ) (s : Bytes) → c == b'\n' ≡ true → blank_at 0 (c ∷ s) ≡ c ∷ s
unfolding blank_at line_at
blank_at_newline c s h = rw (line_of_newline c s h) refl

blank_at_other : (c : ℕ) (s : Bytes) → c == b'\n' ≡ false → blank_at 0 (c ∷ s) ≡ b' ' ∷ blank_at 0 s
unfolding blank_at line_at
blank_at_other c s h = rw (line_of_other c s h) refl

is_start_tail : (p c : ℕ) (s : Bytes) → is_start (suc p) (c ∷ s) ≡ true → is_start p s ≡ true
unfolding is_start
is_start_tail zero c s h = refl
is_start_tail (suc p) c s h = h

line_at_front :
    (c : ℕ) (s t : Bytes)
    → (c == b'\n' ≡ false → line_at 0 s ≡ line_at 0 t)
    → line_at 0 (c ∷ s) ≡ line_at 0 (c ∷ t)
unfolding line_at
line_at_front c s t h = elim (Bool-cases (c == b'\n')) [
  | inl e ↦ line_of_newline c s e ∙ sym (line_of_newline c t e)
  | inr e ↦ line_of_other c s e ∙ ap (◌∷◌ c) (h e) ∙ sym (line_of_other c t e)
]

-- Overwriting one line changes no other.
pub line_at-blank_at :
    (s : Bytes) (p q : ℕ)
    → is_start p s ≡ true
    → is_start q s ≡ true
    → p ≢ q
    → line_at q (blank_at p s) ≡ line_at q s
line_at-blank_at s zero zero hp hq ne = absurd (ne refl)
line_at-blank_at [] zero (suc q) hp hq ne = absurd (unfold is_start in ground arith)
line_at-blank_at [] (suc p) q hp hq ne = absurd (unfold is_start in ground arith)
line_at-blank_at (c ∷ s) zero (suc zero) hp hq ne =
    ap (line_at 1) (blank_at_newline c s (unfold is_start in hq))
line_at-blank_at (c ∷ s) zero (suc (suc q)) hp hq ne = elim (Bool-cases (c == b'\n')) [
  | inl e ↦ ap (line_at (suc (suc q))) (blank_at_newline c s e)
  | inr e ↦
      ap (line_at (suc (suc q))) (blank_at_other c s e)
      ∙ line_at-suc (suc q) b' ' (blank_at 0 s)
      ∙ line_at-blank_at s zero (suc q) (unfold is_start in refl) (unfold is_start in hq)
          (omega arith)
      ∙ sym (line_at-suc (suc q) c s)
]
line_at-blank_at (c ∷ s) (suc zero) zero hp hq ne =
    ap (line_at 0) (blank_at-suc 0 c s)
    ∙ line_at_front c (blank_at 0 s) s (λ e. absurd (unfold is_start in ground arith))
line_at-blank_at (c ∷ s) (suc (suc p)) zero hp hq ne =
    ap (line_at 0) (blank_at-suc (suc p) c s)
    ∙ line_at_front c (blank_at (suc p) s) s (λ e.
      line_at-blank_at s (suc p) 0 (unfold is_start in hp) (unfold is_start in refl) (omega arith))
line_at-blank_at (c ∷ s) (suc p) (suc q) hp hq ne =
    ap (line_at (suc q)) (blank_at-suc p c s)
    ∙ line_at-suc q c (blank_at p s)
    ∙ line_at-blank_at s p q (is_start_tail p c s hp) (is_start_tail q c s hq) (omega arith)
    ∙ sym (line_at-suc q c s)

pub length-blanks : (n : ℕ) → length (blanks n) ≡ n
length-blanks zero = refl
length-blanks (suc n) = ap suc (length-blanks n)

line_of-length : (s : Bytes) → length (line_of s).0 ≤ length s
unfolding line_of
line_of-length [] = omega arith
line_of-length (c ∷ s) = ground (arith, line_of-length s)

blank_at_nil : (p : ℕ) → blank_at p [] ≡ []
unfolding blank_at line_at line_of
blank_at_nil zero = refl
blank_at_nil (suc p) = refl

is_start_next : (q c : ℕ) (s : Bytes) → is_start (suc (suc q)) (c ∷ s) ≡ is_start (suc q) s
unfolding is_start
is_start_next q c s = refl

is_start_second : (c : ℕ) (s : Bytes) → is_start 1 (c ∷ s) ≡ (c == b'\n')
unfolding is_start
is_start_second c s = refl

is_start_nil : (q : ℕ) → is_start (suc q) [] ≡ false
unfolding is_start
is_start_nil q = refl

is_start_zero : (s : Bytes) → is_start 0 s ≡ true
unfolding is_start
is_start_zero [] = refl
is_start_zero (c ∷ s) = refl

pub blank_at-length : (p : ℕ) (s : Bytes) → length (blank_at p s) ≡ length s
blank_at-length p [] = ap length (blank_at_nil p)
blank_at-length zero (c ∷ s) = elim (Bool-cases (c == b'\n')) [
  | inl e ↦ ap length (blank_at_newline c s e)
  | inr e ↦ ap length (blank_at_other c s e) ∙ ap suc (blank_at-length zero s)
]
blank_at-length (suc p) (c ∷ s) = ap length (blank_at-suc p c s) ∙ ap suc (blank_at-length p s)

-- Overwriting a line keeps where lines start.
pub is_start-blank_at :
    (s : Bytes) (p q : ℕ) → is_start q s ≡ true → is_start q (blank_at p s) ≡ true
is_start-blank_at s p zero h = is_start_zero (blank_at p s)
is_start-blank_at [] p (suc q) h = ground (arith, is_start_nil q)
is_start-blank_at (c ∷ s) zero (suc zero) h =
    ap (is_start 1) (blank_at_newline c s (sym (is_start_second c s) ∙ h)) ∙ h
is_start-blank_at (c ∷ s) (suc p) (suc zero) h =
    ap (is_start 1) (blank_at-suc p c s)
    ∙ is_start_second c (blank_at p s)
    ∙ sym (is_start_second c s)
    ∙ h
is_start-blank_at (c ∷ s) zero (suc (suc q)) h = elim (Bool-cases (c == b'\n')) [
  | inl e ↦ ap (is_start (suc (suc q))) (blank_at_newline c s e) ∙ h
  | inr e ↦
      ap (is_start (suc (suc q))) (blank_at_other c s e)
      ∙ is_start_next q b' ' (blank_at 0 s)
      ∙ is_start-blank_at s zero (suc q) (sym (is_start_next q c s) ∙ h)
]
is_start-blank_at (c ∷ s) (suc p) (suc (suc q)) h =
    ap (is_start (suc (suc q))) (blank_at-suc p c s)
    ∙ is_start_next q c (blank_at p s)
    ∙ is_start-blank_at s p (suc q) (sym (is_start_next q c s) ∙ h)

is_terminated_cons : (c : ℕ) (s : Bytes) → 0 < length s → is_terminated (c ∷ s) ≡ is_terminated s
unfolding is_terminated
is_terminated_cons c [] h = absurd (omega arith)
is_terminated_cons c (d ∷ s) h = refl

is_terminated_one : (c : ℕ) → is_terminated (c ∷ []) ≡ (c == b'\n')
unfolding is_terminated
is_terminated_one c = refl

-- Overwriting a line keeps the newline at the end.
pub is_terminated-blank_at :
    (s : Bytes) (p : ℕ) → is_terminated s ≡ true → is_terminated (blank_at p s) ≡ true
is_terminated-blank_at [] p h = ap is_terminated (blank_at_nil p) ∙ h
is_terminated-blank_at (c ∷ []) zero h =
    ap is_terminated (blank_at_newline c [] (sym (is_terminated_one c) ∙ h)) ∙ h
is_terminated-blank_at (c ∷ []) (suc p) h =
    ap is_terminated (blank_at-suc p c [] ∙ ap (◌∷◌ c) (blank_at_nil p)) ∙ h
is_terminated-blank_at (c ∷ d ∷ s) zero h = elim (Bool-cases (c == b'\n')) [
  | inl e ↦ ap is_terminated (blank_at_newline c (d ∷ s) e) ∙ h
  | inr e ↦
      ap is_terminated (blank_at_other c (d ∷ s) e)
      ∙ is_terminated_cons b' ' (blank_at 0 (d ∷ s)) (omega (arith, blank_at-length 0 (d ∷ s)))
      ∙ is_terminated-blank_at (d ∷ s) 0 (sym (is_terminated_cons c (d ∷ s) (omega arith)) ∙ h)
]
is_terminated-blank_at (c ∷ d ∷ s) (suc p) h =
    ap is_terminated (blank_at-suc p c (d ∷ s))
    ∙ is_terminated_cons c (blank_at p (d ∷ s)) (omega (arith, blank_at-length p (d ∷ s)))
    ∙ is_terminated-blank_at (d ∷ s) p (sym (is_terminated_cons c (d ∷ s) (omega arith)) ∙ h)

pub line_at_end : (s t : Bytes) → line_at (length s) (s ++ t) ≡ line_at 0 t
line_at_end [] t = refl
line_at_end (c ∷ s) t = line_at-suc (length s) c (s ++ t) ∙ line_at_end s t

pub is_start_end : (s t : Bytes) → is_terminated s ≡ true → is_start (length s) (s ++ t) ≡ true
is_start_end [] t h = is_start_zero t
is_start_end (c ∷ []) t h = is_start_second c t ∙ sym (is_terminated_one c) ∙ h
is_start_end (c ∷ d ∷ s) t h =
    is_start_next (length s) c (d ∷ s ++ t)
    ∙ is_start_end (d ∷ s) t (sym (is_terminated_cons c (d ∷ s) (omega arith)) ∙ h)

pub is_start-append : (s t : Bytes) (q : ℕ) → is_start q s ≡ true → is_start q (s ++ t) ≡ true
is_start-append s t zero h = is_start_zero (s ++ t)
is_start-append [] t (suc q) h = ground (arith, is_start_nil q)
is_start-append (c ∷ s) t (suc zero) h = is_start_second c (s ++ t) ∙ sym (is_start_second c s) ∙ h
is_start-append (c ∷ s) t (suc (suc q)) h =
    is_start_next q c (s ++ t) ∙ is_start-append s t (suc q) (sym (is_start_next q c s) ∙ h)

-- A line added at the end leaves the lines before it as they are.
pub line_at-append :
    (s t : Bytes) (q : ℕ) → is_terminated s ≡ true → q < length s → line_at q (s ++ t) ≡ line_at q s
line_at-append [] t q h l = absurd (omega arith)
line_at-append (c ∷ []) t zero h l = line_at_front c t [] (λ e. ground (arith, is_terminated_one c))
line_at-append (c ∷ d ∷ s) t zero h l =
    let ih =
      line_at-append (d ∷ s) t 0 (sym (is_terminated_cons c (d ∷ s) (omega arith)) ∙ h)
        (omega arith) in
    line_at_front c (d ∷ s ++ t) (d ∷ s) (λ e. ih)
line_at-append (c ∷ []) t (suc q) h l = absurd (omega arith)
line_at-append (c ∷ d ∷ s) t (suc q) h l =
    line_at-suc q c (d ∷ s ++ t)
    ∙ line_at-append (d ∷ s) t q (sym (is_terminated_cons c (d ∷ s) (omega arith)) ∙ h)
        (omega arith)
    ∙ sym (line_at-suc q c (d ∷ s))

is_terminated_line : (t : Bytes) → is_terminated (t ++ b'\n' ∷ []) ≡ true
is_terminated_line [] = is_terminated_one b'\n'
is_terminated_line (c ∷ t) =
    is_terminated_cons c (t ++ b'\n' ∷ []) (omega (arith, length-append t (b'\n' ∷ [])))
    ∙ is_terminated_line t

pub is_terminated-append : (s t : Bytes) → is_terminated (s ++ (t ++ b'\n' ∷ [])) ≡ true
is_terminated-append s t =
    ap is_terminated (sym (append_assoc s t (b'\n' ∷ []))) ∙ is_terminated_line (s ++ t)

-- A line that starts inside a text which ends with a newline has one behind it.
pub line_found :
    (s : Bytes) (p : ℕ) → is_terminated s ≡ true → p < length s → (line_of (drop p s)).1 ≡ true
line_found [] p h l = absurd (omega arith)
line_found (c ∷ []) zero h l = found_newline c [] (sym (is_terminated_one c) ∙ h)
line_found (c ∷ d ∷ s) zero h l = elim (Bool-cases (c == b'\n')) [
  | inl e ↦ found_newline c (d ∷ s) e
  | inr e ↦
      found_other c (d ∷ s) e
      ∙ line_found (d ∷ s) 0 (sym (is_terminated_cons c (d ∷ s) (omega arith)) ∙ h) (omega arith)
]
line_found (c ∷ []) (suc p) h l = absurd (omega arith)
line_found (c ∷ d ∷ s) (suc p) h l =
    line_found (d ∷ s) p (sym (is_terminated_cons c (d ∷ s) (omega arith)) ∙ h) (omega arith)

-- A text without a newline that a newline follows is the line.
line_of-text : (t r : Bytes) → All (λ c. c ≢ b'\n') t → (line_of (t ++ b'\n' ∷ r)).0 ≡ t
line_of-text [] r h = line_of_newline b'\n' r refl
line_of-text (c ∷ t) r h =
    line_of_other c (t ++ b'\n' ∷ r) (ground (arith, h.0)) ∙ ap (◌∷◌ c) (line_of-text t r h.1)

pub line_at-text : (t r : Bytes) → All (λ c. c ≢ b'\n') t → line_at 0 (t ++ b'\n' ∷ r) ≡ t
unfolding line_at
line_at-text t r h = line_of-text t r h
