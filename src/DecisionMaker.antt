-- ===== src/DecisionMaker.antt =====
-- daemon/src/meta_decision_maker.cpp: stacks of decision makers, one for each entity. A decision
-- maker is the function that its `decide` is.
pub mod Priority
use yonderboy.Prelude.{
  ℕ, Option, none, some, List, [], ◌∷◌, nat_key, if◌then◌else◌, Bool, true, false,
}
use yonderboy.Prelude.Map.{Map, find, set}
use yonderboy.Macros.{Decision, invalid, negative, positive, cant_decide, Entity, entity_value}
use yonderboy.Package.{KeyValueMap}

abbrev pub Maker : Type 0
Maker = KeyValueMap → Decision

-- The top of the stack is the head of the list.
abbrev pub DecisionMakers : Type 0
DecisionMakers = Map ℕ (List Maker)

-- `finalDecision >= 0`
abbrev pub is_final : Decision → Bool
is_final negative = true
is_final positive = true
is_final invalid = false
is_final cant_decide = false

-- The loop of `decide`, with the decision so far.
unfoldable pub decide_from : Decision → List Maker → KeyValueMap → Decision
decide_from last [] information = last
decide_from last (maker ∷ makers) information =
    let rest = decide_from (maker information) makers information in
    if is_final (maker information) then maker information else rest

unfoldable pub decide : Entity → KeyValueMap → DecisionMakers → Decision
decide entity information m = elim (find (entity_value entity) m) [
  | none ↦ cant_decide
  | some makers ↦ decide_from cant_decide makers information
]

unfoldable pub add_decision_maker : Entity → Maker → DecisionMakers → DecisionMakers
add_decision_maker entity maker m = elim (find (entity_value entity) m) [
  | none ↦ set (entity_value entity) (maker ∷ []) m
  | some makers ↦ set (entity_value entity) (maker ∷ makers) m
]

unfoldable pub set_decision_stack : Entity → List Maker → DecisionMakers → DecisionMakers
set_decision_stack entity makers m = set (entity_value entity) makers m

unfoldable pub reset_decision_stack : Entity → DecisionMakers → DecisionMakers
reset_decision_stack entity m = elim (find (entity_value entity) m) [
  | none ↦ m
  | some makers ↦ set (entity_value entity) [] m
]
