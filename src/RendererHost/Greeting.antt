-- ===== src/RendererHost/Greeting.antt =====
-- The greeting of a renderer: `RendererHost::handlePackage` of daemon/src/renderer_host.cpp.
use yonderboy.Prelude.{ℕ, ◌≡◌, refl, arith, true, false, none, some, [], bytes_eq, bytes_eq_iff}
use yonderboy.Prelude.Text.{codes}
use yonderboy.Macros.{connected, established}
use yonderboy.Package.{Package, get_value}
use yonderboy.PackageFactories.{acknowledge}
use yonderboy.AbstractHost.{Host, RendererFields, renderer, send_package}
use yonderboy.Server.{Server, host_after}
use yonderboy.Job.{send}
use yonderboy.DisplayManager.{load_renderer}
use yonderboy.Replies.{reply, set_role, set_established, set_client, is_command}
use yonderboy.RendererHost.{
  handle_renderer, connected_renderer, initialize_renderer, established_renderer, connect_waiting,
}

-- What the greeting sets.
abbrev pub greeted : Package → RendererFields → Host → Host
greeted m f h = record h {
  client_name = get_value m (codes "client-name");
  client_version = get_value m (codes "client-version");
  role = renderer (record f {
    backend_name = get_value m (codes "backend-name");
    backend_version = get_value m (codes "backend-version");
    display_information = get_value m (codes "display-information");
    display_information_type = get_value m (codes "display-information-type");
    view_to_connect_to = none;
  });
}

initialize-not_new :
    (m : Package)
    → is_command m (codes "initialize") ≡ true
    → is_command m (codes "new-renderer-requested") ≡ false
unfolding is_command bytes_eq
initialize-not_new m h =
    rw ((bytes_eq_iff (get_value m (codes "command")) (codes "initialize")).0 h) refl

-- A renderer that greets on a new connection, with no view that waits for it and no address to
-- open, is acknowledged with no error, what it says of itself is kept and its connection is
-- established; then it is sent a second acknowledgement of the same package, with the error
-- `invalid`.
pub handle_renderer-greets :
    (p : ℕ) (m : Package) (s : Server) (h : Host) (f : RendererFields)
    → s.host_heap p ≡ some h
    → h.state ≡ connected
    → h.role ≡ renderer f
    → is_command m (codes "initialize") ≡ true
    → f.view_to_connect_to ≡ none
    → f.initial_uri ≡ []
    → host_after p (handle_renderer p m s)
      ≡ some (
          send_package
            (acknowledge m (codes "invalid"))
            true
            (record (send_package (acknowledge m []) true (greeted m f h)) { state = established }))
unfolding handle_renderer connected_renderer initialize_renderer established_renderer
    connect_waiting load_renderer set_role set_established set_client reply send
handle_renderer-greets p m s h f a b c d e g = ground (arith, initialize-not_new m d)
