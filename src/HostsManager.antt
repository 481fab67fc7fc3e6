-- ===== src/HostsManager.antt =====
-- daemon/src/hosts_manager.cpp: the registry of hosts, their identifiers, the focus, and the list of
-- hosts that wait for their deletion. What the deletion itself does is in HostLifecycle.
pub mod Registry
pub mod Deletion
use yonderboy.Prelude.{
  ℕ, ◌+◌, ◌%◌, Bool, true, false, ◌&&◌, Option, none, some, List, [], ◌∷◌, ◌++◌, Bytes, bytes_key,
  if◌then◌else◌, ◌==◌,
}
use yonderboy.Prelude.Text.{codes, decimal, is_empty, u64_mod}
use yonderboy.Prelude.Map.{find, insert, erase}
use yonderboy.Macros.{
  ServerComponent, renderer_host, viewer_host, controller_host, invalid_component, is_component,
}
use yonderboy.AbstractHost.{
  Host, Role, RendererFields, ViewerFields, ControllerFields, renderer, viewer, controller,
}
use yonderboy.Server.{
  Server, HostsManager, M, ◌>>=◌, ◌>>◌, pure, skip, get, modify, load_host, store_host, load_view,
}
use yonderboy.DisplayManager.{renderer_for_view}

abbrev pub on_hosts : (HostsManager → HostsManager) → M (Unit {0})
on_hosts f = modify λ s. record s { hosts_manager = f s.hosts_manager }

unfoldable pub compose_id : Bytes → ℕ → Bytes
compose_id prefix number = prefix ++ decimal number

-- `getNextRendererID`, `getNextViewerID` and `getNextControllerID`; the counters are 64-bit.
abbrev next_renderer : HostsManager → Bytes × HostsManager
next_renderer m = (
  compose_id (codes "renderer") m.next_renderer_id,
  record m { next_renderer_id = (m.next_renderer_id + 1) % u64_mod },
)

abbrev next_viewer : HostsManager → Bytes × HostsManager
next_viewer m = (
  compose_id (codes "viewer") m.next_viewer_id,
  record m { next_viewer_id = (m.next_viewer_id + 1) % u64_mod },
)

abbrev next_controller : HostsManager → Bytes × HostsManager
next_controller m = (
  compose_id (codes "controller") m.next_controller_id,
  record m { next_controller_id = (m.next_controller_id + 1) % u64_mod },
)

-- What `registerHost` does to the registry, by the class of the host: its new identifier, and the
-- registry with the host in it. A controller may become the main one.
unfoldable pub register_as : Role → ℕ → HostsManager → Bytes × HostsManager
unfolding insert
register_as (renderer r) p m =
    let (id, m') = next_renderer m in
    (id, record m' { hosts = insert id (renderer_host, p) m'.hosts })
register_as (viewer v) p m =
    let (id, m') = next_viewer m in (id, record m' { hosts = insert id (viewer_host, p) m'.hosts })
register_as (controller c) p m =
    let (id, m') = next_controller m in
    let main = is_empty m.main_controller_id && (c.interactive && c.handles_synchronous_requests) in
    (
      id,
      record m' {
        hosts = insert id (controller_host, p) m'.hosts;
        main_controller_id = if main then id else m.main_controller_id;
      },
    )

-- The three `registerHost`; the null pointer gives the empty identifier.
unfoldable pub register_host : Option ℕ → M Bytes
unfolding register_as
register_host none = pure []
register_host (some p) = do
  h ← load_host p
  s ← get
  let (id, m) = register_as h.role p s.hosts_manager
  store_host p (record h { id = id })
  on_hosts λ _. m
  pure id

unfoldable pub get_host : Bytes → HostsManager → ServerComponent × Option ℕ
unfolding find
get_host id m = elim (find id m.hosts) [
  | some (t, p) ↦ (t, some p)
  | none ↦ (invalid_component, none)
]

-- `getRendererHost`, `getViewerHost`, `getControllerHost` differ in the class that they ask for.
unfoldable pub get_host_of : ServerComponent → Bytes → HostsManager → Option ℕ
unfolding get_host
get_host_of wanted id m =
    let (t, p) = get_host id m in
    elim p [ none ↦ none | some q ↦ if is_component t wanted then some q else none ]

abbrev pub get_renderer_host : Bytes → HostsManager → Option ℕ
get_renderer_host = get_host_of renderer_host

abbrev pub get_viewer_host : Bytes → HostsManager → Option ℕ
get_viewer_host = get_host_of viewer_host

abbrev pub get_controller_host : Bytes → HostsManager → Option ℕ
get_controller_host = get_host_of controller_host

abbrev pub get_main_controller : HostsManager → Option ℕ
get_main_controller m = get_controller_host m.main_controller_id m

unfoldable pub set_focus : Option ℕ → M (Unit {0})
set_focus view = on_hosts λ m. record m { focused_view = view }

unfoldable pub get_focused_viewer : M (Option ℕ)
get_focused_viewer = do
  s ← get
  elim s.hosts_manager.focused_view [
    | none ↦ pure none
    | some view ↦ do v ← load_view view; pure (some v.host)
  ]

unfoldable pub get_focused_renderer : M (Option ℕ)
unfolding renderer_for_view
get_focused_renderer = do
  s ← get
  elim s.hosts_manager.focused_view [ none ↦ pure none | some view ↦ renderer_for_view view ]

unfoldable pub schedule : Bytes → HostsManager → HostsManager
unfolding get_host erase
schedule id m = elim (get_host id m).1 [
  | none ↦ m
  | some p ↦ record m {
    hosts = erase id m.hosts;
    hosts_scheduled_for_deletion = m.hosts_scheduled_for_deletion ++ p ∷ [];
    idle_active = true;
  }
]

unfoldable pub schedule_host_for_deletion : Bytes → M (Unit {0})
unfolding schedule
schedule_host_for_deletion id = on_hosts (schedule id)
