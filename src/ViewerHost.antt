-- ===== src/ViewerHost.antt =====
-- daemon/src/viewer_host.cpp: the packages of connection management that a viewer sends.
pub mod Greeting
pub mod Views
use yonderboy.Prelude.{
  ℕ, Bool, true, false, not, ◌&&◌, ◌||◌, Option, none, some, List, [], ◌∷◌, Bytes, bytes_key,
  nat_key, bytes_eq, if◌then◌else◌,
}
use yonderboy.Prelude.Text.{codes, is_empty}
use yonderboy.Prelude.Map.{Map, find, insert, erase}
use yonderboy.Macros.{connected, established, is_state, request, is_type}
use yonderboy.Package.{Package, get_value, is_set, has_value}
use yonderboy.PackageFactories.{acknowledge, construct_package}
use yonderboy.AbstractHost.{
  Host, Role, RendererFields, ViewerFields, ControllerFields, renderer, viewer, controller,
}
use yonderboy.Server.{
  Server, PackageRouter, M, ◌>>=◌, ◌>>◌, pure, skip, get, modify, fault, load_host, store_host,
  load_job, load_view,
}
use yonderboy.Job.{new_job, next_package_id, send}
use yonderboy.JobManager.{add_job, add_dependency, add_request_response_mapping}
use yonderboy.DisplayManager.{connect, load_renderer, view_for_renderer, renderer_for_view}
use yonderboy.HostsManager.{set_focus}
use yonderboy.HostLifecycle.{Environment, new_view, delete_view, shutdown_host, create_renderer}
use yonderboy.ConfigurationManager.{retrieve}
use yonderboy.Replies.{reply, set_role, set_established, add_stati_receiver, set_client, is_command}

viewer_fields : Role → M ViewerFields
viewer_fields (viewer v) = pure v
viewer_fields _ = λ s. fault

load_viewer : ℕ → M ViewerFields
unfolding viewer_fields
load_viewer p = do h ← load_host p; viewer_fields h.role

-- `ViewerHost::createView`
unfoldable pub create_view : ℕ → Bytes → M (Unit {0})
unfolding load_viewer next_package_id construct_package send
create_view p uri = do
  v ← load_viewer p
  if not v.can_have_multiple_views then skip else (do
    id ← next_package_id p
    send p
        (some (
          construct_package (codes "command") (
            (codes "command", codes "create-view")
            ∷ (codes "id", id)
            ∷ (codes "initial-uri", uri)
            ∷ [])))
        true)

initialize_viewer : ℕ → Package → M (Unit {0})
unfolding load_viewer set_role set_client add_stati_receiver reply set_established
initialize_viewer p message = do
  v ← load_viewer p
  set_role p (
      viewer (record v {
        displays_stati = is_set message (codes "can-display-stati");
        displays_popups = is_set message (codes "can-display-popups");
        can_have_multiple_views = is_set message (codes "can-have-multiple-views");
      }))
  set_client p message
  add_stati_receiver p
  reply p message []
  set_established p

unfoldable pub renderer_binary : M Bytes
unfolding retrieve
renderer_binary = do
  s ← get
  pure (retrieve (codes "server") (codes "renderer-binary") (codes "/bin/false") s.configuration)

set_views : ℕ → (Map Bytes ℕ → Map Bytes ℕ) → M (Unit {0})
unfolding load_viewer set_role
set_views p f = do v ← load_viewer p; set_role p (viewer (record v { views = f v.views }))

-- On `register-view`; only a view that asks for a renderer is acknowledged with no error.
pub register_view : Environment → ℕ → Package → M (Unit {0})
unfolding new_view set_views insert create_renderer renderer_binary reply
register_view env p message = do
  view ← new_view p message
  set_views p (insert (get_value message (codes "view-id")) view)
  if is_set message (codes "create-renderer")
      then (do
        binary ← renderer_binary
        _ ← create_renderer env binary (some view) none (get_value message (codes "initial-uri"))
        reply p message [])
      else reply p message (codes "failed")

-- `rendererForView(theView)->shutdownHost()`, with no test for the null pointer.
shutdown_shown_renderer : Environment → ℕ → M (Unit {0})
shutdown_shown_renderer env view = do
  r ← renderer_for_view view
  elim r [ none ↦ (λ s. fault) | some q ↦ shutdown_host env q ]

retrieve_view : ℕ → Bytes → M (Option ℕ)
retrieve_view p id = do v ← load_viewer p; pure (find id v.views)

unregister_found : Environment → ℕ → Package → ℕ → M (Unit {0})
unregister_found env p message view = do
  if not (is_set message (codes "keep-renderer")) then shutdown_shown_renderer env view else skip
  set_views p (erase (get_value message (codes "view-id")))
  reply p message []
  delete_view view

unfoldable pub unregister_view : Environment → ℕ → Package → M (Unit {0})
unfolding unregister_found retrieve_view shutdown_shown_renderer set_views
unregister_view env p message = do
  view ← retrieve_view p (get_value message (codes "view-id"))
  elim view [ none ↦ skip | some v ↦ unregister_found env p message v ]

got_focus : ℕ → Package → M (Unit {0})
unfolding retrieve_view set_focus
got_focus p message = do
  view ← retrieve_view p (get_value message (codes "view-id"))
  elim view [ none ↦ skip | some v ↦ set_focus (some v) ]

-- `ViewerHost::handlePackage`
unfoldable pub handle_viewer : Environment → ℕ → Package → M (Unit {0})
unfolding is_command initialize_viewer register_view unregister_view got_focus reply
handle_viewer env p message = do
  h ← load_host p
  let ready = is_state h.state established && is_set message (codes "view-id")
  if is_state h.state connected && is_command message (codes "initialize")
      then initialize_viewer p message
      else if ready && is_command message (codes "register-view")
      then register_view env p message
      else if ready && is_command message (codes "unregister-view")
      then unregister_view env p message
      else if ready && is_command message (codes "got-focus")
      then got_focus p message
      else reply p message (codes "invalid")
