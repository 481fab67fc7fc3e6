-- ===== src/HostLifecycle.antt =====
-- How hosts and views come and go: daemon/src/view.cpp, `createRenderer` and `idleCallback` of
-- daemon/src/hosts_manager.cpp, the destructors of daemon/src/renderer_host.cpp and
-- daemon/src/viewer_host.cpp, the listeners (daemon/src/controller_listener.cpp,
-- daemon/src/viewer_listener.cpp), and `closeSocket` and `shutdownHost` of
-- daemon/src/abstract_host.cpp. What the operating system answers is in `Environment`.
pub mod Accept
pub mod Idle
use yonderboy.Prelude.{
  ℕ, Bool, true, false, not, ◌&&◌, Option, none, some, List, [], ◌∷◌, Bytes, if◌then◌else◌,
  bytes_key,
}
use yonderboy.Prelude.Text.{codes, is_empty}
use yonderboy.Prelude.Map.{Map}
use yonderboy.Macros.{disconnected, is_state}
use yonderboy.Package.{Package, get_value, is_set}
use yonderboy.AbstractHost.{
  Host, Role, RendererFields, ViewerFields, ControllerFields, renderer, viewer, controller,
  new_host, disconnect,
}
use yonderboy.Server.{
  Server, View, M, ◌>>=◌, ◌>>◌, pure, skip, get, modify, fault, load_host, store_host, free_host,
  load_view, new_view_ref, free_view, new_host_ref,
}
use yonderboy.JobManager.{job_done, job_failed}
use yonderboy.DisplayManager.{
  register_view, register_renderer, unregister_view, unregister_renderer_named, renderer_for_view,
}
use yonderboy.HostsManager.{register_host, schedule_host_for_deletion, on_hosts}

-- The answers that one event gets: the error text of a failed `socketpair` or `fork`, if any, and
-- whether `shutdown` succeeds.
pub record Environment : Type 0 where
  pub spawn_error : Option Bytes
  pub shutdown_succeeds : Bool

-- `View::View`; every view is valid.
unfoldable pub new_view : ℕ → Package → M ℕ
unfolding register_view
new_view host infos = do
  p ← new_view_ref (record {
    host = host;
    id = get_value infos (codes "view-id");
    reassignable = is_set infos (codes "can-be-reassigned");
    popup = is_set infos (codes "is-popup");
    assigned = false;
    display_information = get_value infos (codes "display-information");
    display_information_type = get_value infos (codes "display-information-type");
  })
  register_view (some p)
  pure p

-- `View::~View`
unfoldable pub delete_view : ℕ → M (Unit {0})
unfolding unregister_view
delete_view p = do unregister_view (some p); free_view p

-- An exception of `shutdownSocket` is caught by nobody here.
unfoldable pub shutdown_host : Environment → ℕ → M (Unit {0})
unfolding disconnect
shutdown_host env p = do
  h ← load_host p
  let (h', threw) = disconnect env.shutdown_succeeds h
  store_host p h'
  if threw then (λ s. fault) else skip

unfoldable pub close_socket : ℕ → M (Unit {0})
unfolding schedule_host_for_deletion
close_socket p = do
  h ← load_host p
  store_host p (record h { state = disconnected; write_active = false })
  schedule_host_for_deletion h.id

abbrev renderer_role : Option ℕ → Bytes → Role
renderer_role view uri = renderer (record {
  backend_name = [];
  backend_version = [];
  display_information = [];
  display_information_type = [];
  view_to_connect_to = view;
  initial_uri = uri;
})

abbrev viewer_role : Role
viewer_role = viewer (record {
  views = [];
  displays_stati = false;
  displays_popups = false;
  can_have_multiple_views = false;
})

abbrev pub controller_role : Role
controller_role =
    controller
      (record { interactive = false; handles_synchronous_requests = false; displays_stati = false })

fail_job : Option ℕ → Bytes → M (Unit {0})
unfolding job_failed
fail_job none reason = skip
fail_job (some p) reason = job_failed p reason

finish_spawn_job : Option ℕ → M (Unit {0})
unfolding job_done
finish_spawn_job none = skip
finish_spawn_job (some p) = job_done p

-- `createRenderer`; the binary matters to the child process only.
unfoldable pub create_renderer : Environment → Bytes → Option ℕ → Option ℕ → Bytes → M (Option ℕ)
unfolding new_host register_host register_renderer fail_job finish_spawn_job
create_renderer env binary view job uri = elim env.spawn_error [
  | some reason ↦ do fail_job job reason; pure none
  | none ↦ do
    p ← new_host_ref (new_host (renderer_role view uri))
    _ ← register_host (some p)
    register_renderer (some p)
    finish_spawn_job job
    pure (some p)
]

-- The callbacks of the two listeners, for a connection that was accepted.
unfoldable pub accept_as : Role → M ℕ
unfolding new_host register_host
accept_as role = do p ← new_host_ref (new_host role); _ ← register_host (some p); pure p

abbrev pub accept_controller : M ℕ
accept_controller = accept_as controller_role

abbrev pub accept_viewer : M ℕ
accept_viewer = accept_as viewer_role

shutdown_shown : Environment → Option ℕ → M (Unit {0})
unfolding shutdown_host
shutdown_shown env none = skip
shutdown_shown env (some r) = shutdown_host env r

-- The loop of `ViewerHost::~ViewerHost`.
delete_views : Environment → Map Bytes ℕ → M (Unit {0})
unfolding shutdown_shown delete_view renderer_for_view
delete_views env [] = skip
delete_views env ((id, view) ∷ m) = do
  r ← renderer_for_view view
  shutdown_shown env r
  delete_view view
  delete_views env m

-- The destructors of the three classes.
destroy : Environment → Role → Bytes → M (Unit {0})
unfolding delete_views unregister_renderer_named
destroy env (renderer r) id = unregister_renderer_named id
destroy env (viewer v) id = delete_views env v.views
destroy env (controller c) id = skip

unfoldable pub delete_host : Environment → ℕ → M (Unit {0})
unfolding destroy
delete_host env p = do h ← load_host p; destroy env h.role h.id; free_host p

delete_front : Environment → List ℕ → M (Unit {0})
unfolding delete_host
delete_front env [] = skip
delete_front env (p ∷ ps) = do
  h ← load_host p
  if is_state h.state disconnected
      then (do on_hosts λ m. record m { hosts_scheduled_for_deletion = ps }; delete_host env p)
      else skip

-- `idleCallback`
unfoldable pub idle_callback : Environment → M (Unit {0})
unfolding delete_front
idle_callback env = do
  s ← get
  delete_front env s.hosts_manager.hosts_scheduled_for_deletion
  t ← get
  if is_empty t.hosts_manager.hosts_scheduled_for_deletion
      then on_hosts (λ m. record m { idle_active = false })
      else skip
