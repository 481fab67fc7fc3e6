-- ===== src/DecisionMaker/Priority.antt =====
-- Which decision maker of daemon/src/meta_decision_maker.cpp decides.
use yonderboy.Prelude.{
  ◌≡◌, ap, inl, inr, Option-cases, arith, Option, none, some, List, [], ◌∷◌, map, nat_key,
  if◌then◌else◌, ◌==◌,
}
use yonderboy.Prelude.Map.{find, set, find-set}
use yonderboy.Macros.{Decision, cant_decide, Entity, entity_value}
use yonderboy.Package.{KeyValueMap}
use yonderboy.DecisionMaker.{
  Maker, DecisionMakers, is_final, decide_from, decide, add_decision_maker, reset_decision_stack,
}

or_empty : Option (List Maker) → List Maker
or_empty none = []
or_empty (some makers) = makers

added :
    (entity : Entity) (maker : Maker) (m : DecisionMakers) (o : Option (List Maker))
    → find (entity_value entity) m ≡ o
    → add_decision_maker entity maker m ≡ set (entity_value entity) (maker ∷ or_empty o) m
unfolding add_decision_maker or_empty
added entity maker m none e = ground arith
added entity maker m (some makers) e = ground arith

-- The decision maker that was added last is asked first; where it does not decide, the others for
-- its entity are asked; other entities are untouched.
pub decide-add_decision_maker :
    (entity asked : Entity) (maker : Maker) (information : KeyValueMap) (m : DecisionMakers)
    → decide asked information (add_decision_maker entity maker m) ≡ (
        if entity_value entity == entity_value asked
        then (elim (find (entity_value entity) m) [
          | none ↦ maker information
          | some makers ↦
              if is_final (maker information)
              then maker information
              else decide_from (maker information) makers information
        ])
        else decide asked information m)
unfolding decide decide_from or_empty
decide-add_decision_maker entity asked maker information m =
    elim (Option-cases (find (entity_value entity) m)) [
      | inl e ↦ ground (
        arith,
        ap (find (entity_value asked)) (added entity maker m none e),
        find-set (entity_value entity) (entity_value asked) (maker ∷ []) m,
      )
      | inr (makers, e) ↦ ground (
        arith,
        ap (find (entity_value asked)) (added entity maker m (some makers) e),
        find-set (entity_value entity) (entity_value asked) (maker ∷ makers) m,
      )
    ]

pub decide-reset_decision_stack :
    (entity asked : Entity) (information : KeyValueMap) (m : DecisionMakers)
    → decide asked information (reset_decision_stack entity m) ≡ (
        if entity_value entity == entity_value asked
        then cant_decide
        else decide asked information m)
unfolding decide reset_decision_stack decide_from
decide-reset_decision_stack entity asked information m =
    ground (arith, find-set (entity_value entity) (entity_value asked) [] m)

-- The first answer that decides, in a list of answers.
unfoldable pub first_final : List Decision → Option Decision
first_final [] = none
first_final (d ∷ ds) = if is_final d then some d else first_final ds

unfoldable pub last_of : Decision → List Decision → Decision
last_of d [] = d
last_of d (e ∷ es) = last_of e es

-- Asking a stack of decision makers gives the first answer that decides, from the top, or the
-- last answer where none does.
pub decide_from-first_final :
    (last : Decision) (makers : List Maker) (information : KeyValueMap)
    → decide_from last makers information ≡ (
        let answers = map (λ (maker : Maker). maker information) makers in
        elim (first_final answers) [ some d ↦ d | none ↦ last_of last answers ])
unfolding decide_from first_final last_of
decide_from-first_final last [] information = ground arith
decide_from-first_final last (maker ∷ makers) information =
    ground (arith, decide_from-first_final (maker information) makers information)
