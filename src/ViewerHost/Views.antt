-- ===== src/ViewerHost/Views.antt =====
-- What `ViewerHost::handlePackage` of daemon/src/viewer_host.cpp does about views.
use yonderboy.Prelude.{ℕ, ◌≡◌, arith, false, none, some, nat_key, bytes_key}
use yonderboy.Prelude.Text.{codes}
use yonderboy.Prelude.Map.{find}
use yonderboy.Package.{Package, get_value, is_set}
use yonderboy.AbstractHost.{Host, ViewerFields, viewer}
use yonderboy.Server.{Server, fault}
use yonderboy.DisplayManager.{renderer_for_view}
use yonderboy.HostLifecycle.{Environment}
use yonderboy.ViewerHost.{
  unregister_view, unregister_found, retrieve_view, load_viewer, viewer_fields,
  shutdown_shown_renderer,
}

-- A viewer that unregisters a view which no renderer shows, without asking to keep the renderer,
-- makes the daemon use a null pointer.
pub unregister_view-faults :
    (env : Environment) (p view : ℕ) (m : Package) (s : Server) (h : Host) (v : ViewerFields)
    → s.host_heap p ≡ some h
    → h.role ≡ viewer v
    → find (get_value m (codes "view-id")) v.views ≡ some view
    → is_set m (codes "keep-renderer") ≡ false
    → find view s.display_manager.renderer_by_view ≡ none
    → unregister_view env p m s ≡ fault
unfolding unregister_view unregister_found retrieve_view load_viewer viewer_fields
    shutdown_shown_renderer renderer_for_view
unregister_view-faults env p view m s h v a b c d e = ground arith
