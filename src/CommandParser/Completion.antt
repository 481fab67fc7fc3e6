-- ===== src/CommandParser/Completion.antt =====
-- controllers/cli-controller/src/command_parser.cpp: the completions of a text, as readline asks for
-- them: with 0 first, and then again until there is none.
use yonderboy.Prelude.{
  ℕ, zero, suc, ◌+◌, ◌<◌, Option, none, some, List, [], ◌∷◌, ◌≡◌, refl, sym, ap, ◌∙◌, arith, Bytes,
  length, drop, if◌then◌else◌, inl, inr, Bool-cases, drop-add, length-drop,
}
use yonderboy.CommandParser.{CommandParser, PoptOption}
use yonderboy.CommandParser.Reading.{
  has_prefix, next_completion, comparison_text, completion_generator,
}

unfoldable pub collect : (CommandParser → List Bytes) → Option Bytes × CommandParser → List Bytes
collect more (none, p) = []
collect more (some c, p) = c ∷ more p

-- The calls with 1 that follow; fuel bounds their number.
unfoldable pub later_completions : ℕ → Bytes → CommandParser → List Bytes
later_completions zero text p = []
later_completions (suc fuel) text p =
    collect (later_completions fuel text) (completion_generator text 1 p)

-- What readline collects.
unfoldable pub completions : ℕ → Bytes → CommandParser → List Bytes
completions fuel text p = collect (later_completions fuel text) (completion_generator text 0 p)

-- The long names with the prefix, in the order of the options.
unfoldable pub matching : Bytes → List PoptOption → List Bytes
matching text [] = []
matching text (o ∷ options) =
    if has_prefix text o.long_name
    then (b'-' ∷ b'-' ∷ o.long_name) ∷ matching text options
    else matching text options

-- What the loop finds: nothing, or the first name with the prefix and the position behind it.
data Found (text : Bytes) (n : ℕ) (options : List PoptOption) : Type 0 where
  nothing :
      (m : ℕ)
      → matching text options ≡ []
      → next_completion text n options ≡ (none, m)
      → Found text n options
  name_at :
      (k : ℕ) (name : Bytes)
      → k < length options
      → matching text options ≡ name ∷ matching text (drop (suc k) options)
      → next_completion text n options ≡ (some name, n + suc k)
      → Found text n options

next_completion-Found : (text : Bytes) (n : ℕ) (options : List PoptOption) → Found text n options
unfolding matching next_completion
next_completion-Found text n [] = nothing n refl refl
next_completion-Found text n (o ∷ options) = elim (Bool-cases (has_prefix text o.long_name)) [
  | inl e ↦
      name_at 0 (b'-' ∷ b'-' ∷ o.long_name) (omega arith) (rw (matching, e) refl)
        (rw (next_completion, e) refl)
  | inr e ↦ elim (next_completion-Found text (n + 1) options) [
    | nothing m f g ↦ nothing m (rw (matching, e) f) (rw (next_completion, e) g)
    | name_at k name l f g ↦ name_at (suc k) name (omega arith) (rw (matching, e) f) (
        rw (next_completion, e)
          (g
            ∙ (let h : n + 1 + suc k ≡ n + suc (suc k) = omega arith in
                ap (λ x. (some name, x)) h)))
  ]
]

abbrev at_position : ℕ → CommandParser → CommandParser
at_position n p = record p { generator_position = n }

generator_later :
    (text compared : Bytes) (p : CommandParser)
    → comparison_text text ≡ some compared
    → completion_generator text 1 p ≡ (
        let (c, n) =
          next_completion compared p.generator_position (drop p.generator_position p.options) in
        (c, at_position n p))
unfolding completion_generator
generator_later text compared p h = rw (completion_generator, h) refl

generator_first :
    (text compared : Bytes) (p : CommandParser)
    → comparison_text text ≡ some compared
    → completion_generator text 0 p
      ≡ (let (c, n) = next_completion compared 0 p.options in (c, at_position n p))
unfolding completion_generator
generator_first text compared p h = rw (completion_generator, h) refl

collect_found :
    (fuel : ℕ) (text compared : Bytes) (n : ℕ) (options : List PoptOption) (p : CommandParser)
    → (rest : (k : ℕ)
        → k < length options
        → later_completions fuel text (at_position (n + suc k) p)
          ≡ matching compared (drop (suc k) options))
    → (let (c, m) = next_completion compared n options in
        collect (later_completions fuel text) (c, at_position m p))
      ≡ matching compared options
unfolding collect
collect_found fuel text compared n options p rest =
    elim (next_completion-Found compared n options) [
      | nothing m f g ↦
          ap (λ x. collect (later_completions fuel text) (x.0, at_position x.1 p)) g ∙ sym f
      | name_at k name b f g ↦
          ap (λ x. collect (later_completions fuel text) (x.0, at_position x.1 p)) g
          ∙ ap (◌∷◌ name) (rest k b)
          ∙ sym f
    ]

later-matching :
    (fuel : ℕ) (text compared : Bytes) (p : CommandParser)
    → comparison_text text ≡ some compared
    → length (drop p.generator_position p.options) < fuel
    → later_completions fuel text p ≡ matching compared (drop p.generator_position p.options)
unfolding later_completions
later-matching zero text compared p h l = absurd (omega arith)
later-matching (suc fuel) text compared p h l =
    let n = p.generator_position in
    let rest = drop n p.options in
    ap (collect (later_completions fuel text)) (generator_later text compared p h)
    ∙ collect_found fuel text compared n rest p (λ k b.
      let same = drop-add n (suc k) p.options in
      later-matching fuel text compared (at_position (n + suc k) p) h
        (omega (arith, ap length same, length-drop (suc k) rest, b, l))
      ∙ ap (matching compared) same)

-- Asked with 0 and then again until there is none, the parser gives every long option with the
-- prefix, in their order, and as many calls as there are options, and one more, are enough.
pub completions-matching :
    (text compared : Bytes) (p : CommandParser)
    → comparison_text text ≡ some compared
    → completions (length p.options) text p ≡ matching compared p.options
unfolding completions
completions-matching text compared p h =
    ap (collect (later_completions (length p.options) text)) (generator_first text compared p h)
    ∙ collect_found (length p.options) text compared 0 p.options p (λ k b.
      let z : 0 + suc k ≡ suc k = omega arith in
      ap (λ n. later_completions (length p.options) text (at_position n p)) z
      ∙ later-matching (length p.options) text compared (at_position (suc k) p) h
          (omega (arith, length-drop (suc k) p.options, b)))
