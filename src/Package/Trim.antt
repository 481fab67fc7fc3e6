-- ===== src/Package/Trim.antt =====
-- `Package::trimString` of daemon/src/package.cpp takes off the blanks at both ends.
use yonderboy.Prelude.{
  ℕ, true, false, none, some, [], ◌∷◌, ◌++◌, ◌⊎◌, inl, inr, ◌≡◌, ◌≢◌, refl, sym, ap, ◌∙◌, arith,
  Bytes, All, if◌then◌else◌, Bool-cases, Option-cases,
}
use yonderboy.Prelude.Text.{is_space, find_first_not_of, find_last_not_of}
use yonderboy.Package.{last_byte, trim_left, trim_right, trim_string}

abbrev pub AllSpace : Bytes → Type 0
AllSpace = All (λ c. is_space c ≡ true)

-- Neither end is a blank.
abbrev pub IsTrimmed : Bytes → Type 0
IsTrimmed [] = Unit
IsTrimmed (c ∷ cs) = (is_space c ≡ false) × (is_space (last_byte (c ∷ cs)) ≡ false)

-- The last character is no blank.
abbrev EndsWell : Bytes → Type 0
EndsWell [] = Unit
EndsWell (c ∷ cs) = is_space (last_byte (c ∷ cs)) ≡ false

trim_left_space : (c : ℕ) (s : Bytes) → is_space c ≡ true → trim_left (c ∷ s) ≡ trim_left s
unfolding trim_left find_first_not_of
trim_left_space c s h = ground arith

trim_left_stop : (c : ℕ) (s : Bytes) → is_space c ≡ false → trim_left (c ∷ s) ≡ c ∷ s
unfolding trim_left find_first_not_of
trim_left_stop c s h = ground arith

trim_left-append :
    (pre : Bytes) (c : ℕ) (s : Bytes)
    → AllSpace pre
    → is_space c ≡ false
    → trim_left (pre ++ c ∷ s) ≡ c ∷ s
trim_left-append [] c s h k = trim_left_stop c s k
trim_left-append (b ∷ pre) c s h k =
    trim_left_space b (pre ++ c ∷ s) h.0 ∙ trim_left-append pre c s h.1 k

trim_left-AllSpace : (s : Bytes) → AllSpace s → trim_left s ≡ []
trim_left-AllSpace [] h = unfold trim_left find_first_not_of in refl
trim_left-AllSpace (c ∷ s) h = trim_left_space c s h.0 ∙ trim_left-AllSpace s h.1

find_last_not_of-AllSpace : (s : Bytes) → AllSpace s → find_last_not_of s ≡ none
unfolding find_last_not_of
find_last_not_of-AllSpace [] h = refl
find_last_not_of-AllSpace (c ∷ s) h = ground (arith, find_last_not_of-AllSpace s h.1)

AllSpace-of_find : (s : Bytes) → find_last_not_of s ≡ none → AllSpace s
unfolding find_last_not_of
AllSpace-of_find [] h = tt
AllSpace-of_find (c ∷ s) h = ground (arith, AllSpace-of_find s)

trim_right-none :
    (c : ℕ) (s : Bytes)
    → find_last_not_of s ≡ none
    → trim_right (c ∷ s) ≡ (if is_space c then [] else c ∷ [])
unfolding trim_right find_last_not_of
trim_right-none c s h = ground arith

trim_right-some :
    (c : ℕ) (s : Bytes) (n : ℕ)
    → find_last_not_of s ≡ some n
    → trim_right (c ∷ s) ≡ c ∷ trim_right s
unfolding trim_right find_last_not_of
trim_right-some c s n h = ground arith

trim_right_empty : (s : Bytes) → find_last_not_of s ≡ none → trim_right s ≡ []
unfolding trim_right
trim_right_empty s h = ground arith

trim_right-append :
    (c : ℕ) (t post : Bytes)
    → AllSpace post
    → EndsWell (c ∷ t)
    → trim_right ((c ∷ t) ++ post) ≡ c ∷ t
trim_right-append c [] post h k = trim_right-none c post (find_last_not_of-AllSpace post h) ∙ rw k
trim_right-append c (d ∷ t) post h k =
    let ih = trim_right-append d t post h k in
    elim (Option-cases (find_last_not_of ((d ∷ t) ++ post))) [
      | inl e ↦ cc (ih, trim_right_empty ((d ∷ t) ++ post) e)
      | inr (n, e) ↦ trim_right-some c ((d ∷ t) ++ post) n e ∙ ap (◌∷◌ c) ih
    ]

-- What is left between blanks whose ends are no blanks is the result, whatever the blanks are.
pub trim_string-append :
    (pre t post : Bytes)
    → AllSpace pre
    → AllSpace post
    → IsTrimmed t
    → trim_string (pre ++ (t ++ post)) ≡ t
unfolding trim_string
trim_string-append pre [] post h k m =
    ap trim_right (trim_left-AllSpace (pre ++ post) (both pre h))
    ∙ trim_right_empty [] (unfold find_last_not_of in refl)
  where
    both : (pre : Bytes) → AllSpace pre → AllSpace (pre ++ post)
    both [] h = k
    both (b ∷ pre) h = (h.0, both pre h.1)
trim_string-append pre (c ∷ t) post h k m =
    ap trim_right (trim_left-append pre c (t ++ post) h m.0) ∙ trim_right-append c t post k m.1

record SplitsLeft (s : Bytes) : Type 0 where
  before : Bytes
  blanks : AllSpace before
  whole : s ≡ before ++ trim_left s
  starts :
      (trim_left s ≡ []) ⊎ ((c : ℕ) × (r : Bytes) × (trim_left s ≡ c ∷ r) × (is_space c ≡ false))

trim_left-SplitsLeft : (s : Bytes) → SplitsLeft s
trim_left-SplitsLeft [] = record {
  before = [];
  blanks = tt;
  whole = sym (trim_left-AllSpace [] tt);
  starts = inl (trim_left-AllSpace [] tt);
}
trim_left-SplitsLeft (c ∷ s) = elim (Bool-cases (is_space c)) [
  | inl e ↦
      let r = trim_left-SplitsLeft s in
      record {
        before = c ∷ r.before;
        blanks = (e, r.blanks);
        whole = rw (trim_left_space c s e) (ap (◌∷◌ c) r.whole);
        starts = rw (trim_left_space c s e) r.starts;
      }
  | inr e ↦ record {
    before = [];
    blanks = tt;
    whole = sym (trim_left_stop c s e);
    starts = inr (c, s, trim_left_stop c s e, e);
  }
]

trim_right_first :
    (c : ℕ) (s : Bytes) → is_space c ≡ false → (r : Bytes) × (trim_right (c ∷ s) ≡ c ∷ r)
trim_right_first c s h = elim (Option-cases (find_last_not_of s)) [
  | inl e ↦ ([], trim_right-none c s e ∙ ap (λ x. if x then [] else c ∷ []) h)
  | inr (n, e) ↦ (trim_right s, trim_right-some c s n e)
]

trim_right_ne : (s : Bytes) (n : ℕ) → find_last_not_of s ≡ some n → trim_right s ≢ []
unfolding trim_right find_last_not_of
trim_right_ne [] n h = cc
trim_right_ne (c ∷ s) n h = ground arith

EndsWell-cons : (c : ℕ) (s : Bytes) → s ≢ [] → EndsWell s → EndsWell (c ∷ s)
EndsWell-cons c [] ne h = absurd (ne refl)
EndsWell-cons c (d ∷ s) ne h = h

record SplitsRight (s : Bytes) : Type 0 where
  after : Bytes
  blanks : AllSpace after
  whole : s ≡ trim_right s ++ after
  ends : EndsWell (trim_right s)

trim_right-SplitsRight : (s : Bytes) → SplitsRight s
trim_right-SplitsRight [] =
    let e = trim_right_empty [] (unfold find_last_not_of in refl) in
    record { after = []; blanks = tt; whole = rw e; ends = rw e tt }
trim_right-SplitsRight (c ∷ s) = elim (Option-cases (find_last_not_of s)) [
  | inl e ↦ elim (Bool-cases (is_space c)) [
    | inl b ↦
        let t = trim_right-none c s e ∙ ap (λ x. if x then [] else c ∷ []) b in
        record { after = c ∷ s; blanks = (b, AllSpace-of_find s e); whole = rw t; ends = rw t tt }
    | inr b ↦
        let t = trim_right-none c s e ∙ ap (λ x. if x then [] else c ∷ []) b in
        record { after = s; blanks = AllSpace-of_find s e; whole = rw t; ends = rw t b }
  ]
  | inr (n, e) ↦
      let r = trim_right-SplitsRight s in
      let t = trim_right-some c s n e in
      record {
        after = r.after;
        blanks = r.blanks;
        whole = rw t (ap (◌∷◌ c) r.whole);
        ends = rw t (EndsWell-cons c (trim_right s) (trim_right_ne s n e) r.ends);
      }
]

starts_well :
    {s : Bytes} → SplitsLeft s → SplitsRight (trim_left s) → IsTrimmed (trim_right (trim_left s))
starts_well {s} l r = elim l.starts [
  | inl e ↦ rw (e, trim_right_empty [] (unfold find_last_not_of in refl)) tt
  | inr (c, t, e, h) ↦
      let (u, f) = trim_right_first c t h in let g = ap trim_right e ∙ f in rw g (h, rw g at r.ends)
]

-- Every text is its trimmed part between two runs of blanks, and the trimmed part has none at its
-- ends.
pub record Trims (s t : Bytes) : Type 0 where
  pub before : Bytes
  pub after : Bytes
  pub before_blank : AllSpace before
  pub after_blank : AllSpace after
  pub whole : s ≡ before ++ (t ++ after)
  pub trimmed : IsTrimmed t

pub trim_string-Trims : (s : Bytes) → Trims s (trim_string s)
unfolding trim_string
trim_string-Trims s =
    let l = trim_left-SplitsLeft s in
    let r = trim_right-SplitsRight (trim_left s) in
    record {
      before = l.before;
      after = r.after;
      before_blank = l.blanks;
      after_blank = r.blanks;
      whole = l.whole ∙ ap (◌++◌ l.before) r.whole;
      trimmed = starts_well l r;
    }
