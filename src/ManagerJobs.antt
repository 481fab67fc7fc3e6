-- ===== src/ManagerJobs.antt =====
-- The `doJob` of daemon/src/display_manager.cpp and of daemon/src/hosts_manager.cpp.
use yonderboy.Prelude.{
  ℕ, ◌&&◌, Option, none, some, [], bytes_key, nat_key, pair_key, bytes_eq, if◌then◌else◌,
}
use yonderboy.Prelude.Text.{codes}
use yonderboy.Prelude.Map.{find}
use yonderboy.Macros.{command, is_type}
use yonderboy.Package.{Package, get_value, is_set}
use yonderboy.Server.{M, ◌>>=◌, pure, skip, get, load_job, free_job}
use yonderboy.DisplayManager.{connect}
use yonderboy.HostsManager.{get_viewer_host}
use yonderboy.HostLifecycle.{Environment, create_renderer}
use yonderboy.ViewerHost.{renderer_binary}

-- `DisplayManager::doJob`: the view that the job names, `focused` or registered by its viewer.
view_of_job : Package → M (Option ℕ)
unfolding find
view_of_job p = do
  s ← get
  let id = get_value p (codes "view-id")
  let viewer = get_viewer_host (get_value p (codes "viewer-id")) s.hosts_manager
  if bytes_eq id (codes "focused")
      then pure s.hosts_manager.focused_view
      else pure (elim viewer [ none ↦ none | some v ↦ find (id, v) s.display_manager.views ])

connect_or_delete : ℕ → Option ℕ → Option ℕ → M (Unit {0})
unfolding connect
connect_or_delete job none r = free_job job
connect_or_delete job (some view) none = free_job job
connect_or_delete job (some view) (some r) = connect view r (some job)

unfoldable pub display_do_job : ℕ → M (Unit {0})
unfolding view_of_job connect_or_delete
display_do_job job = do
  j ← load_job job
  s ← get
  let p = j.base
  if is_type p.type command
        && (bytes_eq (get_value p (codes "command")) (codes "connect-view-to-renderer")
            && (is_set p (codes "view-id")
                && (is_set p (codes "renderer-id") && is_set p (codes "viewer-id"))))
      then (do
        view ← view_of_job p
        connect_or_delete job view
            (find (get_value p (codes "renderer-id")) s.display_manager.renderers))
      else free_job job

-- `HostsManager::doJob`
unfoldable pub hosts_do_job : Environment → ℕ → M (Unit {0})
unfolding renderer_binary create_renderer
hosts_do_job env job = do
  j ← load_job job
  if bytes_eq (get_value j.base (codes "command")) (codes "spawn-renderer")
      then (do binary ← renderer_binary; _ ← create_renderer env binary none (some job) []; skip)
      else skip
