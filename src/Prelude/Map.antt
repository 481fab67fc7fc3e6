-- ===== src/Prelude/Map.antt =====
-- `std::map` as a list of entries in key order. `insert` keeps an entry that is there already, as
-- `std::map::insert` does; `set` is `m[k] = v`. A `std::set` is a map to `Unit`.
use mathlib.Core.Path.{◌≡◌, refl, ◌∙◌}
use mathlib.Core.Bool.{Bool, true}
use mathlib.Core.Option.{Option, none, some, get_or}
use mathlib.Core.Logic.{inl, inr}
use mathlib.Core.List.{List, [], ◌∷◌, ◌++◌}
use native.Mathlib.Omega.{arith}
use yonderboy.Prelude.Tests.{if◌then◌else◌, is_some, Bool-cases, Option-cases}
use yonderboy.Prelude.Lists.{All}
use yonderboy.Prelude.Keys.{Key}

abbrev pub Map {ℓ κ} : Type ℓ → Type κ → Type (ℓ ⊔ κ)
Map K V = List (K × V)

pub beq_refl {ℓ} : {K : Type ℓ} ⦃key : Key K⦄ (k : K) → key.beq k k ≡ true
beq_refl ⦃key⦄ k = (key.beq_iff k k).1 refl

module _ {ℓ κ} {K : Type ℓ} {V : Type κ} ⦃key : Key K⦄ where
  unfoldable pub find : K → Map K V → Option V
  find k [] = none
  find k ((j, v) ∷ m) = if key.beq j k then some v else find k m

  abbrev pub has : K → Map K V → Bool
  has k m = is_some (find k m)

  -- A new entry goes in front of the first larger key.
  unfoldable pub place : K → V → Map K V → Map K V
  place k v [] = (k, v) ∷ []
  place k v ((j, w) ∷ m) = if key.less k j then (k, v) ∷ (j, w) ∷ m else (j, w) ∷ place k v m

  unfoldable pub insert : K → V → Map K V → Map K V
  unfolding find place
  insert k v m = if has k m then m else place k v m

  unfoldable pub erase : K → Map K V → Map K V
  erase k [] = []
  erase k ((j, w) ∷ m) = if key.beq j k then erase k m else (j, w) ∷ erase k m

  unfoldable pub set : K → V → Map K V → Map K V
  unfolding place erase
  set k v m = place k v (erase k m)

  -- The keys rise strictly.
  abbrev pub IsSorted : Map K V → Type 0
  IsSorted [] = Unit
  IsSorted (e ∷ m) = All (λ d. key.less e.0 d.0 ≡ true) m × IsSorted m

  find-place :
      (k j : K) (v : V) (m : Map K V)
      → find k m ≡ none
      → find j (place k v m) ≡ (if key.beq k j then some v else find j m)
  unfolding find place
  find-place k j v [] h = refl
  find-place k j v ((i, w) ∷ m) h =
      ground (arith, key.beq_iff k j, key.beq_iff i k, key.beq_iff i j, find-place k j v m)

  -- An entry that is there stays; a new one is found under its key, and the others are untouched.
  pub find-insert :
      (k j : K) (v : V) (m : Map K V)
      → find j (insert k v m) ≡ (if key.beq k j then some (get_or (find j m) v) else find j m)
  unfolding insert
  find-insert k j v m = elim (Option-cases (find k m)) [
    | inl e ↦ rw (e, find-place k j v m e) (ground (arith, key.beq_iff k j))
    | inr (w, e) ↦ rw e (ground (arith, key.beq_iff k j))
  ]

  -- An entry that is there stays.
  pub find-insert_kept :
      (k j : K) (v w : V) (m : Map K V) → find j m ≡ some w → find j (insert k v m) ≡ some w
  find-insert_kept k j v w m h = find-insert k j v m ∙ ground arith

  pub find-erase :
      (k j : K) (m : Map K V) → find j (erase k m) ≡ (if key.beq k j then none else find j m)
  unfolding find erase
  find-erase k j [] = ground arith
  find-erase k j ((i, w) ∷ m) =
      ground (arith, key.beq_iff k j, key.beq_iff i k, key.beq_iff i j, find-erase k j m)

  pub find-erase_self : (k : K) (m : Map K V) → find k (erase k m) ≡ none
  find-erase_self k m = rw (find-erase k k m, beq_refl k)

  -- `erase` and then `insert`
  pub find-replace : (k : K) (v : V) (m : Map K V) → find k (insert k v (erase k m)) ≡ some v
  find-replace k v m = rw (find-insert k k v (erase k m), beq_refl k, find-erase_self k m) refl

  pub find-replaced :
      (k j : K) (v : V) (m : Map K V)
      → find j (insert k v (erase k m)) ≡ (if key.beq k j then some v else find j m)
  find-replaced k j v m = elim (Bool-cases (key.beq k j)) [
    | inl e ↦ rw (find-insert k j v (erase k m), find-erase k j m, e) refl
    | inr e ↦ rw (find-insert k j v (erase k m), find-erase k j m, e) refl
  ]

  pub find-set :
      (k j : K) (v : V) (m : Map K V)
      → find j (set k v m) ≡ (if key.beq k j then some v else find j m)
  unfolding set
  find-set k j v m =
      rw (find-place k j v (erase k m) (find-erase_self k m)) (ground (arith, find-erase k j m))

  find-All_less : (k : K) (m : Map K V) → All (λ d. key.less d.0 k ≡ true) m → find k m ≡ none
  unfolding find
  find-All_less k [] h = refl
  find-All_less k ((j, w) ∷ m) h =
      ground (arith, key.beq_iff j k, key.less_asym j k, find-All_less k m)

  place-All_less :
      (k : K) (v : V) (m : Map K V)
      → All (λ d. key.less d.0 k ≡ true) m
      → place k v m ≡ m ++ (k, v) ∷ []
  unfolding place
  place-All_less k v [] h = refl
  place-All_less k v ((j, w) ∷ m) h = ground (arith, key.less_asym j k, place-All_less k v m)

  -- A key above all others goes to the end.
  pub insert-All_less :
      (k : K) (v : V) (m : Map K V)
      → All (λ d. key.less d.0 k ≡ true) m
      → insert k v m ≡ m ++ (k, v) ∷ []
  unfolding insert
  insert-All_less k v m h = rw (find-All_less k m h) (place-All_less k v m h)

  -- In a sorted list, all that stands before an entry has a smaller key.
  pub IsSorted-before :
      (m : Map K V) (k : K) (v : V) (r : Map K V)
      → IsSorted (m ++ (k, v) ∷ r)
      → All (λ d. key.less d.0 k ≡ true) m
  IsSorted-before [] k v r h = tt
  IsSorted-before ((j, w) ∷ m) k v r h = (first m h.0, IsSorted-before m k v r h.1)
    where
      first :
          (m : Map K V) → All (λ d. key.less j d.0 ≡ true) (m ++ (k, v) ∷ r) → key.less j k ≡ true
      first [] h = h.0
      first (e ∷ m) h = first m h.1
