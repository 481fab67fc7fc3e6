-- ===== src/PackageRouter.antt =====
-- daemon/src/package_router.cpp: where a package and a job go.
pub mod Routes
use yonderboy.Prelude.{
  ℕ, zero, suc, Bool, true, false, not, ◌&&◌, ◌||◌, Option, none, some, List, [], ◌∷◌, Bytes,
  bytes_key, nat_key, pair_key, bytes_eq, if◌then◌else◌, is_some,
}
use yonderboy.Prelude.Text.{codes, is_empty}
use yonderboy.Prelude.Map.{Map, find, insert, erase, has}
use yonderboy.Macros.{
  PackageType, unknown, command, status_change, request, response, acknowledgement,
  connection_management, is_type, not_type_eq, ServerComponent, decision_maker, display_manager,
  job_manager, configuration_manager, persistence_manager, hosts_manager, package_router,
  server_controller, renderer_host, viewer_host, controller_host, invalid_component, is_component,
  established, is_state,
}
use yonderboy.Package.{Package, get_value, is_set, copy_package, parse_package}
use yonderboy.PackageFactories.{acknowledge}
use yonderboy.AbstractHost.{Host, host_type, update_next_package_id}
use yonderboy.Server.{
  Server, Job, PackageRouter, M, ◌>>=◌, ◌>>◌, pure, skip, get, modify, fault, load_host, store_host,
  load_job, free_job, load_view,
}
use yonderboy.Job.{new_job, send}
use yonderboy.JobManager.{add_job, job_done, job_failed, finish_job, retrieve_job, request_answered}
use yonderboy.DisplayManager.{connect, are_connected}
use yonderboy.HostsManager.{
  get_renderer_host, get_viewer_host, get_controller_host, get_main_controller,
  get_focused_renderer, get_focused_viewer,
}
use yonderboy.HostLifecycle.{Environment, create_renderer}
use yonderboy.ServerController
use yonderboy.ClientHosts.{handle_package, host_do_job}
use yonderboy.ManagerJobs.{display_do_job, hosts_do_job}
use yonderboy.StatusChanges.{deliver_status_change}

refuse : ℕ → Bytes → M (Unit {0})
unfolding send acknowledge
refuse job reason = do j ← load_job job; send j.host (acknowledge j.base reason) true

-- The answer to a job that the router does not know where to send; the job is deleted.
refuse_and_delete : ℕ → M (Unit {0})
unfolding refuse
refuse_and_delete job = do refuse job (codes "unknown"); free_job job

-- A job for a host that is named in it: the host does it, or its absence is answered.
unfoldable pub give_to_host : Option ℕ → ℕ → Bytes → M (Unit {0})
unfolding host_do_job job_failed refuse
give_to_host (some p) job reason = host_do_job p job
give_to_host none job reason = do
  j ← load_job job
  if j.base.acknowledgement_needed then job_failed job reason else refuse job reason

target_renderer : Bytes → M (Option ℕ)
unfolding get_focused_renderer
target_renderer id = do
  s ← get
  if bytes_eq id (codes "focused")
      then get_focused_renderer
      else pure (get_renderer_host id s.hosts_manager)

target_viewer : Bytes → M (Option ℕ)
unfolding get_focused_viewer
target_viewer id = do
  s ← get
  if bytes_eq id (codes "focused")
      then get_focused_viewer
      else pure (get_viewer_host id s.hosts_manager)

target_controller : Bytes → M (Option ℕ)
target_controller id = do
  s ← get
  if is_empty id
      then pure (get_main_controller s.hosts_manager)
      else pure (get_controller_host id s.hosts_manager)

-- The second switch of `routeJob`, on the component that the table names. The decision maker, the
-- configuration manager and the persistence manager do nothing with a job.
unfoldable pub route_to : Environment → ServerComponent → ℕ → M (Unit {0})
unfolding display_do_job hosts_do_job target_renderer target_viewer target_controller give_to_host
    refuse_and_delete ServerController.do_job
route_to env decision_maker job = skip
route_to env display_manager job = display_do_job job
route_to env configuration_manager job = skip
route_to env persistence_manager job = skip
route_to env hosts_manager job = hosts_do_job env job
route_to env server_controller job = ServerController.do_job job
route_to env renderer_host job = do
  j ← load_job job
  r ← target_renderer (get_value j.base (codes "renderer-id"))
  give_to_host r job (codes "missing renderer id")
route_to env viewer_host job = do
  j ← load_job job
  v ← target_viewer (get_value j.base (codes "viewer-id"))
  give_to_host v job (codes "missing viewer id")
route_to env controller_host job = do
  j ← load_job job
  c ← target_controller (get_value j.base (codes "controller-id"))
  give_to_host c job (codes "missing controller id")
route_to env job_manager job = refuse_and_delete job
route_to env package_router job = refuse_and_delete job
route_to env invalid_component job = refuse_and_delete job

route_name : Environment → Bytes → ℕ → M (Unit {0})
unfolding route_to refuse_and_delete find
route_name env name job = do
  s ← get
  elim (find name s.package_router.routing_table) [
    | none ↦ refuse_and_delete job
    | some c ↦ route_to env c job
  ]

-- A response that comes as a job; `retrieveJob` looks for a job of the same host and identifier.
route_response : ℕ → M (Unit {0})
unfolding retrieve_job send finish_job refuse
route_response job = do
  j ← load_job job
  original ← retrieve_job j.host j.base.id
  elim original [
    | some q ↦ do k ← load_job q; send k.host (some j.base) true; free_job job; finish_job q
    | none ↦ do refuse job (codes "unmatched"); free_job job
  ]

-- `routeJob`; for another type the iterator is read uninitialized.
unfoldable pub route_job : Environment → ℕ → M (Unit {0})
unfolding route_name route_response
route_job env job = do
  j ← load_job job
  elim j.base.type [
    | command ↦ route_name env (get_value j.base (codes "command")) job
    | request ↦ route_name env (get_value j.base (codes "request-type")) job
    | response ↦ route_response job
    | _ ↦ λ s. fault
  ]

acknowledge_job : Option ℕ → M (Unit {0})
unfolding job_done
acknowledge_job none = skip
acknowledge_job (some job) = job_done job

-- The last branch of `processPackage`. The guard of `addJob` compares a negation with a type.
unfoldable pub process_job : Environment → ℕ → Package → M (Unit {0})
unfolding new_job add_job route_job
process_job env host message = do
  job ← new_job host message []
  if message.acknowledgement_needed && not_type_eq message.type request
      then add_job (some job)
      else skip
  route_job env job

-- `PackageRouter::processPackage`
unfoldable pub process_package : Environment → ℕ → Package → M (Unit {0})
unfolding retrieve_job acknowledge_job request_answered deliver_status_change process_job
process_package env host message = elim message.type [
  | acknowledgement ↦ do job ← retrieve_job host message.id; acknowledge_job job
  | response ↦ request_answered host message
  | status_change ↦ deliver_status_change host message
  | _ ↦ process_job env host message
]
