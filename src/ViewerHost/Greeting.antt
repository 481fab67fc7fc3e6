-- ===== src/ViewerHost/Greeting.antt =====
-- The greeting of a viewer: `ViewerHost::handlePackage` of daemon/src/viewer_host.cpp.
use yonderboy.Prelude.{ℕ, ◌≡◌, arith, true, false, some, [], nat_key, bytes_key}
use yonderboy.Prelude.Text.{codes}
use yonderboy.Prelude.Map.{insert}
use yonderboy.Macros.{connected, established}
use yonderboy.Package.{Package, get_value, is_set}
use yonderboy.PackageFactories.{acknowledge}
use yonderboy.AbstractHost.{Host, ViewerFields, viewer, send_package}
use yonderboy.Server.{Server, host_after}
use yonderboy.Job.{send}
use yonderboy.HostLifecycle.{Environment, new_view}
use yonderboy.DisplayManager
use yonderboy.Replies.{reply, set_role, set_established, set_client, is_command, add_stati_receiver}
use yonderboy.ViewerHost.{
  handle_viewer, initialize_viewer, load_viewer, viewer_fields, register_view, set_views,
}

-- What the greeting sets.
abbrev pub greeted : Package → ViewerFields → Host → Host
greeted m v h = record h {
  client_name = get_value m (codes "client-name");
  client_version = get_value m (codes "client-version");
  role = viewer (record v {
    displays_stati = is_set m (codes "can-display-stati");
    displays_popups = is_set m (codes "can-display-popups");
    can_have_multiple_views = is_set m (codes "can-have-multiple-views");
  });
}

-- A viewer that greets on a new connection is acknowledged with no error, what it says of itself
-- is kept, and its connection is established.
pub handle_viewer-greets :
    (env : Environment) (p : ℕ) (m : Package) (s : Server) (h : Host) (v : ViewerFields)
    → s.host_heap p ≡ some h
    → h.state ≡ connected
    → h.role ≡ viewer v
    → is_command m (codes "initialize") ≡ true
    → host_after p (handle_viewer env p m s)
      ≡ some (record (send_package (acknowledge m []) true (greeted m v h)) { state = established })
unfolding handle_viewer initialize_viewer load_viewer viewer_fields set_role set_client
    add_stati_receiver reply set_established send
handle_viewer-greets env p m s h v a b c d = ground arith

-- A view that a viewer registers without asking for a renderer is kept, and yet acknowledged with
-- the error `failed`.
pub register_view-failed :
    (env : Environment) (p : ℕ) (m : Package) (s : Server) (h : Host) (v : ViewerFields)
    → s.host_heap p ≡ some h
    → h.role ≡ viewer v
    → is_set m (codes "create-renderer") ≡ false
    → host_after p (register_view env p m s)
      ≡ some (
          send_package (acknowledge m (codes "failed")) true (record h {
            role =
                viewer
                  (record v { views = insert (get_value m (codes "view-id")) s.next_ref v.views });
          }))
unfolding register_view set_views load_viewer viewer_fields set_role reply send new_view
    DisplayManager.register_view
register_view-failed env p m s h v a b c = ground arith
