-- ===== src/DisplayManager.antt =====
-- daemon/src/display_manager.cpp: which renderer is shown in which view.
pub mod Connection
pub mod Connect
use yonderboy.Prelude.{
  ℕ, Bool, true, false, not, ◌&&◌, ◌||◌, Option, none, some, List, [], ◌∷◌, Bytes, nat_key,
  bytes_key, pair_key, bytes_eq, if◌then◌else◌, ◌==◌, is_some,
}
use yonderboy.Prelude.Text.{codes}
use yonderboy.Prelude.Map.{Map, find, insert, erase}
use yonderboy.Package.{Package, make_package}
use yonderboy.PackageFactories.{insert_all}
use yonderboy.AbstractHost.{Host, Role, RendererFields, renderer}
use yonderboy.Server.{
  Server, View, DisplayManager, M, ◌>>=◌, ◌>>◌, pure, skip, get, modify, fault, load_host,
  load_view, store_view, load_job,
}
use yonderboy.Job.{new_job, next_package_id, send}
use yonderboy.JobManager.{add_job, add_dependency}

abbrev on_display : (DisplayManager → DisplayManager) → M (Unit {0})
on_display f = modify λ s. record s { display_manager = f s.display_manager }

renderer_fields : Role → M RendererFields
renderer_fields (renderer r) = pure r
renderer_fields _ = λ s. fault

-- The members of a `RendererHost*`.
unfoldable pub load_renderer : ℕ → M RendererFields
unfolding renderer_fields
load_renderer p = do h ← load_host p; renderer_fields h.role

unfoldable pub register_view : Option ℕ → M (Unit {0})
unfolding insert
register_view none = skip
register_view (some p) = do
  v ← load_view p
  on_display λ d. record d { views = insert (v.id, v.host) p d.views }

unfoldable pub register_renderer : Option ℕ → M (Unit {0})
unfolding insert
register_renderer none = skip
register_renderer (some p) = do
  h ← load_host p
  on_display λ d. record d { renderers = insert h.id p d.renderers }

construct_view_disconnect_package : ℕ → M Package
construct_view_disconnect_package p = do
  v ← load_view p
  s ← get
  let common =
      (codes "type", codes "command")
      ∷ (codes "command", codes "disconnect-from-renderer")
      ∷ (codes "view-id", v.id)
      ∷ []
  elim (find p s.display_manager.renderer_by_view) [
    | none ↦ pure (make_package (some (insert_all common [])) [])
    | some r ↦ do
      h ← load_host r
      pure (make_package (some (insert (codes "renderer-id") h.id (insert_all common []))) [])
  ]

unfoldable pub construct_renderer_disconnect_package : Package
construct_renderer_disconnect_package =
    make_package
      (some (
        insert_all
          ((codes "type", codes "command") ∷ (codes "command", codes "disconnect-from-view") ∷ [])
          []))
      []

construct_view_connect_package : ℕ → ℕ → M Package
unfolding insert_all
construct_view_connect_package view r = do
  v ← load_view view
  h ← load_host r
  f ← load_renderer r
  pure (
      make_package
        (some (
          insert_all
            ((codes "type", codes "command")
              ∷ (codes "command", codes "connect-to-renderer")
              ∷ (codes "display-information-type", f.display_information_type)
              ∷ (codes "display-information", f.display_information)
              ∷ (codes "view-id", v.id)
              ∷ (codes "renderer-id", h.id)
              ∷ [])
            []))
        [])

construct_renderer_connect_package : ℕ → M Package
unfolding insert_all
construct_renderer_connect_package view = do
  v ← load_view view
  pure (
      make_package
        (some (
          insert_all
            ((codes "type", codes "command")
              ∷ (codes "command", codes "connect-to-view")
              ∷ (codes "display-information-type", v.display_information_type)
              ∷ (codes "display-information", v.display_information)
              ∷ [])
            []))
        [])

-- The two maps without the entries of a view and of a renderer, and with them.
unfoldable pub unlink : ℕ → ℕ → DisplayManager → DisplayManager
unlink view r d = record d {
  renderer_by_view = erase view d.renderer_by_view;
  view_by_renderer = erase r d.view_by_renderer;
}

unfoldable pub link : ℕ → ℕ → DisplayManager → DisplayManager
link view r d = record d {
  renderer_by_view = insert view r d.renderer_by_view;
  view_by_renderer = insert r view d.view_by_renderer;
}

-- `disconnect(View*, RendererHost*)`
unfoldable pub disconnect : ℕ → ℕ → M (Unit {0})
unfolding construct_view_disconnect_package construct_renderer_disconnect_package
disconnect view r = do
  on_display (unlink view r)
  v ← load_view view
  p ← construct_view_disconnect_package view
  send v.host (some p) true
  send r (some construct_renderer_disconnect_package) true

-- `disconnectView(View*)` and `disconnectRenderer(RendererHost*)`
unfoldable pub disconnect_view : ℕ → M (Unit {0})
unfolding disconnect find
disconnect_view view = do
  s ← get
  elim (find view s.display_manager.renderer_by_view) [ none ↦ skip | some r ↦ disconnect view r ]

unfoldable pub disconnect_renderer : ℕ → M (Unit {0})
unfolding disconnect find
disconnect_renderer r = do
  s ← get
  elim (find r s.display_manager.view_by_renderer) [ none ↦ skip | some view ↦ disconnect view r ]

-- The same by name.
unfoldable pub disconnect_view_named : Bytes → ℕ → M (Unit {0})
unfolding disconnect_view
disconnect_view_named id host = do
  s ← get
  elim (find (id, host) s.display_manager.views) [ none ↦ skip | some view ↦ disconnect_view view ]

unfoldable pub disconnect_renderer_named : Bytes → M (Unit {0})
unfolding disconnect_renderer
disconnect_renderer_named id = do
  s ← get
  elim (find id s.display_manager.renderers) [ none ↦ skip | some r ↦ disconnect_renderer r ]

unfoldable pub unregister_view_named : Bytes → ℕ → M (Unit {0})
unfolding disconnect_view
unregister_view_named id host = do
  s ← get
  elim (find (id, host) s.display_manager.views) [
    | none ↦ skip
    | some view ↦ do
      disconnect_view view
      on_display λ d. record d { views = erase (id, host) d.views }
      _ ← load_view view
      skip
  ]

unfoldable pub unregister_renderer_named : Bytes → M (Unit {0})
unfolding disconnect_renderer
unregister_renderer_named id = do
  s ← get
  elim (find id s.display_manager.renderers) [
    | none ↦ skip
    | some r ↦ do
      disconnect_renderer r
      on_display λ d. record d { renderers = erase id d.renderers }
      _ ← load_host r
      skip
  ]

unfoldable pub unregister_view : Option ℕ → M (Unit {0})
unfolding unregister_view_named
unregister_view none = skip
unregister_view (some p) = do v ← load_view p; unregister_view_named v.id v.host

unfoldable pub unregister_renderer : Option ℕ → M (Unit {0})
unfolding unregister_renderer_named
unregister_renderer none = skip
unregister_renderer (some p) = do h ← load_host p; unregister_renderer_named h.id

-- A job that a connection makes for one of the two sides.
side_job : ℕ → Package → M ℕ
unfolding next_package_id new_job
side_job host p = do id ← next_package_id host; new_job host p id

depend : Option ℕ → ℕ → M (Unit {0})
unfolding add_dependency
depend none p = skip
depend (some job) p = add_dependency job p

send_job : ℕ → ℕ → M (Unit {0})
unfolding send
send_job host p = do j ← load_job p; send host (some j.base) true

-- `connect` behind its two guards.
make_connection : ℕ → ℕ → Option ℕ → M (Unit {0})
unfolding unlink link construct_view_connect_package construct_renderer_connect_package side_job
    depend send_job add_job
make_connection view r connect_job = do
  on_display (unlink view r)
  viewer_package ← construct_view_connect_package view r
  renderer_package ← construct_renderer_connect_package view
  v ← load_view view
  viewer_job ← side_job v.host viewer_package
  renderer_job ← side_job r renderer_package
  add_job (some viewer_job)
  add_job (some renderer_job)
  depend connect_job viewer_job
  depend connect_job renderer_job
  send_job v.host viewer_job
  send_job r renderer_job
  on_display (link view r)
  w ← load_view view
  store_view view (record w { assigned = true })

unfoldable pub connect : ℕ → ℕ → Option ℕ → M (Unit {0})
unfolding make_connection load_renderer
connect view r connect_job = do
  v ← load_view view
  f ← load_renderer r
  if not (bytes_eq v.display_information_type f.display_information_type)
        || (v.assigned && not v.reassignable)
      then skip
      else make_connection view r connect_job

-- `isConnected` of a view and of a renderer, `areConnected`, `rendererForView`, `viewForRenderer`.
unfoldable pub is_view_connected : ℕ → M Bool
is_view_connected view = do s ← get; pure (is_some (find view s.display_manager.renderer_by_view))

unfoldable pub is_renderer_connected : ℕ → M Bool
is_renderer_connected r = do s ← get; pure (is_some (find r s.display_manager.view_by_renderer))

unfoldable pub are_connected : ℕ → ℕ → M Bool
unfolding find
are_connected viewer_host r = do
  s ← get
  elim (find r s.display_manager.view_by_renderer) [
    | none ↦ pure false
    | some view ↦ do v ← load_view view; pure (v.host == viewer_host)
  ]

unfoldable pub renderer_for_view : ℕ → M (Option ℕ)
renderer_for_view view = do s ← get; pure (find view s.display_manager.renderer_by_view)

unfoldable pub view_for_renderer : ℕ → M (Option ℕ)
view_for_renderer r = do s ← get; pure (find r s.display_manager.view_by_renderer)
