-- ===== src/CommandTable/Permissions.antt =====
-- Who may send what: `isAllowed` of daemon/src/package_router.cpp.
use yonderboy.Prelude.{
  ◌≡◌, refl, ap, arith, Bool, true, false, Option, none, some, List, Bytes, ◌∷◌, [], if◌then◌else◌,
  bytes_key, bytes_eq, bytes_eq_iff, ◌&&◌, ◌||◌,
}
use yonderboy.Prelude.Text.{codes}
use yonderboy.Prelude.Map.{find, has, insert, find-insert}
use yonderboy.Macros.{
  ServerComponent, renderer_host, controller_host, PackageType, command, request, response,
  status_change, acknowledgement, connection_management,
}
use yonderboy.Package.{Package, get_value}
use yonderboy.Server.{PackageRouter}
use yonderboy.CommandTable.{
  CommandSpec, is_allowed, allowed_for_controller, allowed_for_renderer, add_commands, add_command,
  allow_sources, allow_source, construct_router, string_to_component,
}

-- Whether an entry of the specification has the name and lists the source.
unfoldable pub lists_source : Bytes → List Bytes → Bool
lists_source source [] = false
lists_source source (s ∷ ss) = bytes_eq s source || lists_source source ss

unfoldable pub may_send : Bytes → Bytes → List CommandSpec → Bool
unfolding lists_source
may_send source name [] = false
may_send source name (c ∷ cs) =
    (bytes_eq c.name name && lists_source source c.sources) || may_send source name cs

-- The target of the first entry with the name.
unfoldable pub target_of : Bytes → List CommandSpec → Option ServerComponent
unfolding string_to_component
target_of name [] = none
target_of name (c ∷ cs) =
    if bytes_eq c.name name then some (string_to_component c.target) else target_of name cs

abbrev with_route : CommandSpec → PackageRouter → PackageRouter
with_route c r = record r {
  routing_table = insert c.name (string_to_component c.target) r.routing_table;
}

allow_sources-controller :
    (name n : Bytes) (ss : List Bytes) (r : PackageRouter)
    → has n (allow_sources name ss r).allowed_controller_commands ≡ (
        has n r.allowed_controller_commands
        || (bytes_eq name n && lists_source (codes "controller") ss))
unfolding allow_sources allow_source lists_source
allow_sources-controller name n [] r = ground arith
allow_sources-controller name n (s ∷ ss) r = ground (
  arith,
  allow_sources-controller name n ss (allow_source name s r),
  find-insert name n tt r.allowed_controller_commands,
)

allow_sources-table :
    (name : Bytes) (ss : List Bytes) (r : PackageRouter)
    → (allow_sources name ss r).routing_table ≡ r.routing_table
unfolding allow_sources allow_source
allow_sources-table name [] r = refl
allow_sources-table name (s ∷ ss) r =
    ground (arith, allow_sources-table name ss (allow_source name s r))

controller-renderer :
    (s : Bytes) → bytes_eq s (codes "renderer") ≡ true → bytes_eq s (codes "controller") ≡ false
unfolding bytes_eq
controller-renderer s h = rw ((bytes_eq_iff s (codes "renderer")).0 h) refl

allow_sources-renderer :
    (name n : Bytes) (ss : List Bytes) (r : PackageRouter)
    → has n (allow_sources name ss r).allowed_renderer_commands ≡ (
        has n r.allowed_renderer_commands
        || (bytes_eq name n && lists_source (codes "renderer") ss))
unfolding allow_sources allow_source lists_source
allow_sources-renderer name n [] r = ground arith
allow_sources-renderer name n (s ∷ ss) r = ground (
  arith,
  allow_sources-renderer name n ss (allow_source name s r),
  find-insert name n tt r.allowed_renderer_commands,
  controller-renderer s,
)

module _ (name : Bytes) where
  add_commands-controller :
      (cs : List CommandSpec) (r : PackageRouter)
      → has name (add_commands cs r).allowed_controller_commands
        ≡ (has name r.allowed_controller_commands || may_send (codes "controller") name cs)
  unfolding add_commands add_command may_send
  add_commands-controller [] r = ground arith
  add_commands-controller (c ∷ cs) r = ground (
    arith,
    add_commands-controller cs (add_command c r),
    allow_sources-controller c.name name c.sources (with_route c r),
  )

  add_commands-renderer :
      (cs : List CommandSpec) (r : PackageRouter)
      → has name (add_commands cs r).allowed_renderer_commands
        ≡ (has name r.allowed_renderer_commands || may_send (codes "renderer") name cs)
  unfolding add_commands add_command may_send
  add_commands-renderer [] r = ground arith
  add_commands-renderer (c ∷ cs) r = ground (
    arith,
    add_commands-renderer cs (add_command c r),
    allow_sources-renderer c.name name c.sources (with_route c r),
  )

  add_commands-table :
      (cs : List CommandSpec) (r : PackageRouter)
      → find name (add_commands cs r).routing_table
        ≡ (elim (find name r.routing_table) [ some t ↦ some t | none ↦ target_of name cs ])
  unfolding add_commands add_command target_of
  add_commands-table [] r = ground arith
  add_commands-table (c ∷ cs) r = ground (
    arith,
    add_commands-table cs (add_command c r),
    ap (find name) (allow_sources-table c.name c.sources (with_route c r)),
    find-insert c.name name (string_to_component c.target) r.routing_table,
  )

  -- In the routing table that the constructor reads from the specification, a command leads to
  -- the target of the first entry with its name, and a command with no entry leads nowhere.
  pub construct_router-routes :
      (specs : List CommandSpec)
      → find name (construct_router specs).routing_table ≡ target_of name specs
  unfolding construct_router find
  construct_router-routes specs = add_commands-table specs _

-- What a class of clients may do with a type of packages: always, never, or what the entries of the
-- specification list for a source, under the name that a key of the package gives.
pub data Rule : Type 0 where
  always never : Rule
  listed : Bytes → Bytes → Rule

unfoldable pub rule : ServerComponent → PackageType → Rule
rule _ acknowledgement = always
rule _ connection_management = always
rule controller_host command = listed (codes "controller") (codes "command")
rule controller_host request = listed (codes "controller") (codes "request-type")
rule controller_host response = always
rule renderer_host request = listed (codes "renderer") (codes "request-type")
rule renderer_host response = always
rule renderer_host status_change = always
rule _ _ = never

unfoldable pub permits : List CommandSpec → Package → Rule → Bool
unfolding may_send
permits specs p always = true
permits specs p never = false
permits specs p (listed source key) = may_send source (get_value p key) specs

module _ (specs : List CommandSpec) where
  controller_lists :
      (name : Bytes)
      → has name (construct_router specs).allowed_controller_commands
        ≡ may_send (codes "controller") name specs
  unfolding construct_router find
  controller_lists name = add_commands-controller name specs _

  renderer_lists :
      (name : Bytes)
      → has name (construct_router specs).allowed_renderer_commands
        ≡ may_send (codes "renderer") name specs
  unfolding construct_router find
  renderer_lists name = add_commands-renderer name specs _

  -- With the sets that the constructor reads from the specification, the test of a received
  -- package is a table by the class of the client and the type of the package: always, never, or
  -- where an entry with the package's command or request type lists the class as a source.
  pub is_allowed-construct_router :
      (receiving : ServerComponent) (p : Package)
      → is_allowed (construct_router specs) receiving p ≡ permits specs p (rule receiving p.type)
  unfolding is_allowed allowed_for_controller allowed_for_renderer permits rule
  is_allowed-construct_router receiving p =
      let a = controller_lists (get_value p (codes "command")) in
      let b = controller_lists (get_value p (codes "request-type")) in
      let c = renderer_lists (get_value p (codes "request-type")) in ground arith
