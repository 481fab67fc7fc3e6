-- ===== src/ClientHosts.antt =====
-- What is virtual in daemon/src/abstract_host.h, `handlePackage` and `doJob`, and `forwardJob` of
-- daemon/src/abstract_host.cpp.
pub mod Forwarding
use yonderboy.Prelude.{
  ℕ, Bool, true, false, not, ◌&&◌, ◌||◌, Option, none, some, List, [], ◌∷◌, Bytes, bytes_key,
  nat_key, bytes_eq, if◌then◌else◌,
}
use yonderboy.Prelude.Text.{codes, is_empty}
use yonderboy.Prelude.Map.{Map, find, insert, erase}
use yonderboy.Macros.{connected, established, is_state, request, is_type}
use yonderboy.Package.{Package, get_value, is_set, has_value}
use yonderboy.PackageFactories.{acknowledge, construct_package}
use yonderboy.AbstractHost.{
  Host, Role, RendererFields, ViewerFields, ControllerFields, renderer, viewer, controller,
}
use yonderboy.Server.{
  Server, PackageRouter, M, ◌>>=◌, ◌>>◌, pure, skip, get, modify, fault, load_host, store_host,
  load_job, load_view,
}
use yonderboy.Job.{new_job, next_package_id, send}
use yonderboy.JobManager.{add_job, add_dependency, add_request_response_mapping}
use yonderboy.DisplayManager.{connect, load_renderer, view_for_renderer, renderer_for_view}
use yonderboy.HostsManager.{set_focus}
use yonderboy.HostLifecycle.{Environment, new_view, delete_view, shutdown_host, create_renderer}
use yonderboy.ConfigurationManager.{retrieve}
use yonderboy.RendererHost.{handle_renderer}
use yonderboy.ViewerHost.{handle_viewer}
use yonderboy.ControllerHost.{handle_controller}

-- The virtual `handlePackage`.
unfoldable pub handle_package : Environment → ℕ → Package → M (Unit {0})
unfolding handle_renderer handle_viewer handle_controller
handle_package env p message = do
  h ← load_host p
  elim h.role [
    | renderer r ↦ handle_renderer p message
    | viewer v ↦ handle_viewer env p message
    | controller c ↦ handle_controller p message
  ]

-- `AbstractHost::forwardJob`
unfoldable pub forward_job : ℕ → ℕ → M (Unit {0})
forward_job p job = do
  h ← load_host p
  if not (is_state h.state connected || is_state h.state established) then skip else (do
    j ← load_job job
    id ← next_package_id p
    forwarded ← new_job p j.base id
    if is_type j.base.type request
        then add_request_response_mapping job forwarded
        else (do add_job (some forwarded); add_dependency job forwarded)
    k ← load_job forwarded
    send p (some k.base) false)

-- `doJob` of the three classes: only a renderer does anything with a job.
unfoldable pub host_do_job : ℕ → ℕ → M (Unit {0})
unfolding forward_job
host_do_job p job = do h ← load_host p; elim h.role [ renderer r ↦ forward_job p job | _ ↦ skip ]
