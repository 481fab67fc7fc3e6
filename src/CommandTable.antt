-- ===== src/CommandTable.antt =====
-- daemon/src/package_router.cpp: the constructor, which reads the network specification, and what a
-- client may send.
pub mod Permissions
use yonderboy.Prelude.{
  ℕ, zero, suc, Bool, true, false, not, ◌&&◌, ◌||◌, Option, none, some, List, [], ◌∷◌, Bytes,
  bytes_key, nat_key, pair_key, bytes_eq, if◌then◌else◌, is_some,
}
use yonderboy.Prelude.Text.{codes, is_empty}
use yonderboy.Prelude.Map.{Map, find, insert, erase, has}
use yonderboy.Macros.{
  PackageType, unknown, command, status_change, request, response, acknowledgement,
  connection_management, is_type, not_type_eq, ServerComponent, decision_maker, display_manager,
  job_manager, configuration_manager, persistence_manager, hosts_manager, package_router,
  server_controller, renderer_host, viewer_host, controller_host, invalid_component, is_component,
  established, is_state,
}
use yonderboy.Package.{Package, get_value, is_set, copy_package, parse_package}
use yonderboy.PackageFactories.{acknowledge}
use yonderboy.AbstractHost.{Host, host_type, update_next_package_id}
use yonderboy.Server.{
  Server, Job, PackageRouter, M, ◌>>=◌, ◌>>◌, pure, skip, get, modify, fault, load_host, store_host,
  load_job, free_job, load_view,
}
use yonderboy.Job.{new_job, send}
use yonderboy.JobManager.{add_job, job_done, job_failed, finish_job, retrieve_job, request_answered}
use yonderboy.DisplayManager.{connect, are_connected}
use yonderboy.HostsManager.{
  get_renderer_host, get_viewer_host, get_controller_host, get_main_controller,
  get_focused_renderer, get_focused_viewer,
}
use yonderboy.HostLifecycle.{Environment, create_renderer}
use yonderboy.ServerController

unfoldable pub string_to_component : Bytes → ServerComponent
string_to_component s =
    if bytes_eq s (codes "decision-maker")
    then decision_maker
    else if bytes_eq s (codes "display-manager")
    then display_manager
    else if bytes_eq s (codes "job-manager")
    then job_manager
    else if bytes_eq s (codes "configuration-manager")
    then configuration_manager
    else if bytes_eq s (codes "persistence-manager")
    then persistence_manager
    else if bytes_eq s (codes "hosts-manager")
    then hosts_manager
    else if bytes_eq s (codes "package-router")
    then package_router
    else if bytes_eq s (codes "server-controller")
    then server_controller
    else if bytes_eq s (codes "renderer-host")
    then renderer_host
    else if bytes_eq s (codes "viewer-host")
    then viewer_host
    else if bytes_eq s (codes "controller-host")
    then controller_host
    else invalid_component

-- An entry of the network specification whose three fields have the kinds that the constructor
-- asks for; the YAML library has read it.
pub record CommandSpec : Type 0 where
  pub name : Bytes
  pub target : Bytes
  pub sources : List Bytes

allow_source : Bytes → Bytes → PackageRouter → PackageRouter
unfolding insert
allow_source name source r =
    if bytes_eq source (codes "controller")
    then record r { allowed_controller_commands = insert name tt r.allowed_controller_commands }
    else if bytes_eq source (codes "renderer")
    then record r { allowed_renderer_commands = insert name tt r.allowed_renderer_commands }
    else r

allow_sources : Bytes → List Bytes → PackageRouter → PackageRouter
unfolding allow_source
allow_sources name [] r = r
allow_sources name (s ∷ ss) r = allow_sources name ss (allow_source name s r)

-- One round of the loop of the constructor.
unfoldable pub add_command : CommandSpec → PackageRouter → PackageRouter
unfolding allow_sources string_to_component insert
add_command c r =
    allow_sources c.name c.sources
      (record r { routing_table = insert c.name (string_to_component c.target) r.routing_table })

unfoldable pub add_commands : List CommandSpec → PackageRouter → PackageRouter
unfolding add_command
add_commands [] r = r
add_commands (c ∷ cs) r = add_commands cs (add_command c r)

unfoldable pub construct_router : List CommandSpec → PackageRouter
unfolding add_commands
construct_router specs = add_commands specs (record {
  routing_table = [];
  stati_receiver = [];
  allowed_controller_commands = [];
  allowed_renderer_commands = [];
})

-- `isAllowed`, for a package that a host of the given class has received.
allowed_for_controller : PackageRouter → Package → Bool
unfolding find
allowed_for_controller r p = elim p.type [
  | command ↦ has (get_value p (codes "command")) r.allowed_controller_commands
  | request ↦ has (get_value p (codes "request-type")) r.allowed_controller_commands
  | response ↦ true
  | _ ↦ false
]

allowed_for_renderer : PackageRouter → Package → Bool
unfolding find
allowed_for_renderer r p = elim p.type [
  | request ↦ has (get_value p (codes "request-type")) r.allowed_renderer_commands
  | status_change ↦ true
  | response ↦ true
  | _ ↦ false
]

unfoldable pub is_allowed : PackageRouter → ServerComponent → Package → Bool
unfolding allowed_for_controller allowed_for_renderer
is_allowed r receiving p =
    if is_type p.type acknowledgement || is_type p.type connection_management
    then true
    else if is_component receiving controller_host
    then allowed_for_controller r p
    else if is_component receiving viewer_host
    then false
    else if is_component receiving renderer_host
    then allowed_for_renderer r p
    else false
