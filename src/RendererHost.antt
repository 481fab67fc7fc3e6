-- ===== src/RendererHost.antt =====
-- daemon/src/renderer_host.cpp: the packages of connection management that a renderer sends.
pub mod Greeting
use yonderboy.Prelude.{
  ℕ, true, not, ◌&&◌, Option, none, some, [], ◌∷◌, Bytes, bytes_key, nat_key, if◌then◌else◌,
}
use yonderboy.Prelude.Text.{codes, is_empty}
use yonderboy.Macros.{connected, established, is_state}
use yonderboy.Package.{Package, get_value, has_value}
use yonderboy.PackageFactories.{construct_package}
use yonderboy.AbstractHost.{renderer}
use yonderboy.Server.{M, ◌>>=◌, ◌>>◌, skip, load_host, load_view}
use yonderboy.Job.{send}
use yonderboy.DisplayManager.{connect, load_renderer, view_for_renderer}
use yonderboy.Replies.{reply, set_role, set_established, set_client, is_command}
use yonderboy.ViewerHost.{create_view}

connect_waiting : Option ℕ → ℕ → M (Unit {0})
unfolding connect
connect_waiting none p = skip
connect_waiting (some view) p = connect view p none

-- `RendererHost::handlePackage` on `initialize`, in the state `Connected`.
initialize_renderer : ℕ → Package → M (Unit {0})
unfolding load_renderer set_client set_role connect_waiting reply set_established construct_package
    send
initialize_renderer p message = do
  f ← load_renderer p
  set_client p message
  let f' = record f {
    backend_name = get_value message (codes "backend-name");
    backend_version = get_value message (codes "backend-version");
    display_information = get_value message (codes "display-information");
    display_information_type = get_value message (codes "display-information-type");
  }
  set_role p (renderer f')
  connect_waiting f.view_to_connect_to p
  set_role p (renderer (record f' { view_to_connect_to = none }))
  reply p message []
  set_established p
  if not (is_empty f.initial_uri)
      then send p
          (some (
            construct_package (codes "command")
              ((codes "command", codes "open-uri") ∷ (codes "uri", f.initial_uri) ∷ [])))
          true
      else skip

connected_renderer : ℕ → Package → M (Unit {0})
unfolding is_command initialize_renderer reply
connected_renderer p message =
    if is_command message (codes "initialize")
    then initialize_renderer p message
    else reply p message (codes "invalid")

request_view : Option ℕ → Bytes → M (Unit {0})
unfolding create_view
request_view none uri = skip
request_view (some view) uri = do v ← load_view view; create_view v.host uri

established_renderer : ℕ → Package → M (Unit {0})
unfolding is_command view_for_renderer request_view reply has_value
established_renderer p message =
    if is_command message (codes "new-renderer-requested") && has_value message (codes "uri")
    then (do view ← view_for_renderer p; request_view view (get_value message (codes "uri")))
    else reply p message (codes "invalid")

-- `RendererHost::handlePackage`: the second test reads the state that the first branch left.
unfoldable pub handle_renderer : ℕ → Package → M (Unit {0})
unfolding connected_renderer established_renderer reply
handle_renderer p message = do
  h ← load_host p
  if is_state h.state connected then connected_renderer p message else skip
  k ← load_host p
  if is_state k.state established
      then established_renderer p message
      else reply p message (codes "invalid")
