-- ===== src/CommandParser/Lines.antt =====
-- controllers/cli-controller/src/command_parser.cpp: what lines of input become.
use yonderboy.Prelude.{
  ℕ, Bool, true, false, not, Option, none, some, List, [], ◌∷◌, ◌≡◌, refl, ap, subst, ◌∙◌, arith,
  Bytes, bytes_key, bytes_eq, if◌then◌else◌, All, inl, inr, Option-cases, ◌==◌,
}
use mathlib.Core.Option.{get_or}
use yonderboy.Prelude.{bytes_less}
use yonderboy.Prelude.Text.{codes}
use yonderboy.Prelude.Map.{Map, find, insert, place, find-insert, beq_refl}
use yonderboy.Package.{KeyValueMap}
use yonderboy.CommandParser.{
  CommandParser, RequiredParameter, PoptOption, Target, renderer, viewer, view, leaked,
  bool_argument, string_argument,
}
use yonderboy.CommandParser.Reading.{
  PoptAnswer, zeroed, freed, reset, write_cell, assign, assign_all, insert_parameters, insert_flags,
  insert_strings, insert_target, insert_targets, start_map, command_map,
  construct_package_from_line,
}

zeroed-write_cell :
    (name : Bytes) (v : ℕ) (m : Map Bytes ℕ) → zeroed (write_cell name v m) ≡ zeroed m
unfolding zeroed write_cell
zeroed-write_cell name v [] = refl
zeroed-write_cell name v ((other, w) ∷ m) = ground (arith, zeroed-write_cell name v m)

freed-write_cell :
    (name : Bytes) (v : Option Bytes) (m : Map Bytes (Option Bytes))
    → freed (write_cell name v m) ≡ freed m
unfolding freed write_cell
freed-write_cell name v [] = refl
freed-write_cell name v ((other, w) ∷ m) = ground (arith, freed-write_cell name v m)

reset-assign : (a : Target × Bytes) (p : CommandParser) → reset (assign a p) ≡ reset p
unfolding reset assign
reset-assign (renderer, v) p = refl
reset-assign (viewer, v) p = refl
reset-assign (view, v) p = refl
reset-assign (leaked, v) p = refl
reset-assign (bool_argument name, v) p =
    ap (λ m. record (reset p) { bool_option_arguments = m })
      (zeroed-write_cell name 1 p.bool_option_arguments)
reset-assign (string_argument name, v) p =
    ap (λ m. record (reset p) { string_option_arguments = m })
      (freed-write_cell name (some v) p.string_option_arguments)

reset-assign_all :
    (l : List (Target × Bytes)) (p : CommandParser) → reset (assign_all l p) ≡ reset p
unfolding assign_all
reset-assign_all [] p = refl
reset-assign_all (a ∷ l) p = reset-assign_all l (assign a p) ∙ reset-assign a p

-- A line whose options popt knows leaves the parser as `reset` does, whatever was in its
-- variables; a line with an option that popt does not know gives no package, and leaves in the
-- variables what popt has put there.
pub construct_package_from_line-reset :
    (popt : List PoptOption → List Bytes → PoptAnswer) (argv : List Bytes) (package_id : Bytes)
    (p : CommandParser)
    → ((popt p.options argv).failed ≡ false
        → (construct_package_from_line popt argv package_id p).1 ≡ reset p)
      × ((popt p.options argv).failed ≡ true
          → construct_package_from_line popt argv package_id p
            ≡ (none, assign_all (popt p.options argv).assignments p))
unfolding construct_package_from_line
construct_package_from_line-reset popt argv package_id p = (
  λ h. rw (construct_package_from_line, h) (reset-assign_all (popt p.options argv).assignments p),
  λ h. rw (construct_package_from_line, h) refl,
)

abbrev Holds : Bytes → Bytes → KeyValueMap → Type 0
Holds k v m = find k m ≡ some v

-- An entry that is there stays.
insert-Holds : (j w k v : Bytes) (m : KeyValueMap) → Holds k v m → Holds k v (insert j w m)
insert-Holds j w k v m h = find-insert j k w m ∙ ground arith

if-Holds :
    (b : Bool) (name k v : Bytes) (m : KeyValueMap)
    → Holds k v m
    → Holds k v (if b then insert name [] m else m)
if-Holds true name k v m h = insert-Holds name [] k v m h
if-Holds false name k v m h = h

flags-Holds :
    (flags : Map Bytes ℕ) (k v : Bytes) (m : KeyValueMap)
    → Holds k v m
    → Holds k v (insert_flags flags m)
unfolding insert_flags
flags-Holds [] k v m h = h
flags-Holds ((name, n) ∷ flags) k v m h =
    flags-Holds flags k v (if not (n == 0) then insert name [] m else m)
      (if-Holds (not (n == 0)) name k v m h)

strings-Holds :
    (strings : Map Bytes (Option Bytes)) (k v : Bytes) (m : KeyValueMap)
    → Holds k v m
    → Holds k v (insert_strings strings m)
unfolding insert_strings
strings-Holds [] k v m h = h
strings-Holds ((name, none) ∷ strings) k v m h = strings-Holds strings k v m h
strings-Holds ((name, some w) ∷ strings) k v m h =
    strings-Holds strings k v (insert name w m) (insert-Holds name w k v m h)

target-Holds :
    (required : Bool) (key : Bytes) (id : Option Bytes) (k v : Bytes) (m : KeyValueMap)
    → Holds k v m
    → Holds k v (insert_target required key id m)
unfolding insert_target
target-Holds false key id k v m h = h
target-Holds true key id k v m h = insert-Holds key _ k v m h

targets-Holds :
    (p : CommandParser) (k v : Bytes) (m : KeyValueMap)
    → Holds k v m
    → Holds k v (insert_targets p m)
unfolding insert_targets
targets-Holds p k v m h = target-Holds p.view_id_required (codes "view-id") p.view_id k v _ (
    target-Holds p.viewer_id_required (codes "viewer-id") p.viewer_id k v _
      (target-Holds p.renderer_id_required (codes "renderer-id") p.renderer_id k v m h))

parameters-Holds :
    (parameters : List RequiredParameter) (arguments : List Bytes) (k v : Bytes) (m n : KeyValueMap)
    → insert_parameters parameters arguments m ≡ some n
    → Holds k v m
    → Holds k v n
unfolding insert_parameters
parameters-Holds [] arguments k v m n e h = ground arith
parameters-Holds (q ∷ parameters) [] k v m n e h = absurd (ground arith)
parameters-Holds (q ∷ parameters) (w ∷ arguments) k v m n e h =
    parameters-Holds parameters arguments k v (insert q.name w m) n e
      (insert-Holds q.name w k v m h)

-- The parameter has a value.
abbrev pub IsNamed : KeyValueMap → RequiredParameter → Type 0
IsNamed m q = (v : Bytes) × (find q.name m ≡ some v)

insert-IsNamed :
    (q : RequiredParameter) (w : Bytes) (m : KeyValueMap) → IsNamed (insert q.name w m) q
insert-IsNamed q w m = (
  get_or (find q.name m) w,
  find-insert q.name q.name w m
      ∙ ap (λ b. if b then some (get_or (find q.name m) w) else find q.name m) (beq_refl q.name),
)

parameters-IsNamed :
    (parameters : List RequiredParameter) (arguments : List Bytes) (m n : KeyValueMap)
    → insert_parameters parameters arguments m ≡ some n
    → All (IsNamed n) parameters
unfolding insert_parameters
parameters-IsNamed [] arguments m n e = tt
parameters-IsNamed (q ∷ parameters) [] m n e = absurd (ground arith)
parameters-IsNamed (q ∷ parameters) (w ∷ arguments) m n e =
    let (v, h) = insert-IsNamed q w m in
    (
      (v, parameters-Holds parameters arguments q.name v (insert q.name w m) n e h),
      parameters-IsNamed parameters arguments (insert q.name w m) n e,
    )

-- The part of the map behind the parameters.
finished : CommandParser → KeyValueMap → KeyValueMap
finished p m =
    insert_targets p
      (insert_strings p.string_option_arguments (insert_flags p.bool_option_arguments m))

finished-Holds :
    (p : CommandParser) (k v : Bytes) (m : KeyValueMap) → Holds k v m → Holds k v (finished p m)
unfolding finished
finished-Holds p k v m h =
    targets-Holds p k v _
      (strings-Holds p.string_option_arguments k v _ (flags-Holds p.bool_option_arguments k v m h))

finished-IsNamed :
    (p : CommandParser) (parameters : List RequiredParameter) (m : KeyValueMap)
    → All (IsNamed m) parameters
    → All (IsNamed (finished p m)) parameters
finished-IsNamed p [] m h = tt
finished-IsNamed p (q ∷ parameters) m h =
    ((h.0.0, finished-Holds p q.name h.0.0 m h.0.1), finished-IsNamed p parameters m h.1)

-- What each package of a command has.
pub record IsCommandMap (p : CommandParser) (package_id : Bytes) (m : KeyValueMap) : Type 0 where
  pub type : find (codes "type") m ≡ some (codes "command")
  pub id : find (codes "id") m ≡ some package_id
  pub command : find (codes "command") m ≡ some p.command
  pub named : All (IsNamed m) p.parameters

start_map-type : (c id : Bytes) → find (codes "type") (start_map c id) ≡ some (codes "command")
unfolding start_map find insert place bytes_eq bytes_less
start_map-type c id = refl

start_map-id : (c id : Bytes) → find (codes "id") (start_map c id) ≡ some id
unfolding start_map find insert place bytes_eq bytes_less
start_map-id c id = refl

start_map-command : (c id : Bytes) → find (codes "command") (start_map c id) ≡ some c
unfolding start_map find insert place bytes_eq bytes_less
start_map-command c id = refl

command_map_made :
    (p : CommandParser) (arguments : List Bytes) (package_id : Bytes) (m : KeyValueMap)
    → command_map p arguments package_id ≡ some m
    → (n : KeyValueMap) × (insert_parameters p.parameters arguments (start_map p.command package_id)
        ≡ some n)
      × (finished p n ≡ m)
unfolding command_map finished
command_map_made p arguments package_id m e =
    elim (Option-cases
      (insert_parameters p.parameters arguments (start_map p.command package_id))) [
        | inl f ↦ absurd (ground arith)
        | inr (n, f) ↦ (n, f, ground arith)
      ]

-- The map of a command's package has the command, the identifier and the type that the parser
-- gives, whatever the names of parameters and options are, and a value for each required
-- parameter.
pub command_map-IsCommandMap :
    (p : CommandParser) (arguments : List Bytes) (package_id : Bytes) (m : KeyValueMap)
    → command_map p arguments package_id ≡ some m
    → IsCommandMap p package_id m
command_map-IsCommandMap p arguments package_id m e =
    let (n, f, g) = command_map_made p arguments package_id m e in
    let start = start_map p.command package_id in
    let keep : (k v : Bytes) → Holds k v start → Holds k v n =
      λ k v. parameters-Holds p.parameters arguments k v start n f in
    subst (IsCommandMap p package_id) g (record {
      type = finished-Holds p _ _ n (keep _ _ (start_map-type p.command package_id));
      id = finished-Holds p _ _ n (keep _ _ (start_map-id p.command package_id));
      command = finished-Holds p _ _ n (keep _ _ (start_map-command p.command package_id));
      named =
          finished-IsNamed p p.parameters n (parameters-IsNamed p.parameters arguments start n f);
    })
