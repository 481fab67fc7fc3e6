-- ===== src/DisplayManager/Connection.antt =====
-- The two maps of daemon/src/display_manager.cpp, from views to renderers and back.
use yonderboy.Prelude.{
  ℕ, ◌≡◌, ◌≢◌, ◌↔◌, ◌⊎◌, arith, true, not, ◌&&◌, ◌||◌, Option, ◌∷◌, [], bytes_key, none, some,
  nat_key, bytes_eq,
}
use yonderboy.Prelude.Map.{find, find-insert, find-erase, find-erase_self}
use yonderboy.AbstractHost.{Host, RendererFields, renderer, send_package}
use yonderboy.Package.{Package, make_package}
use yonderboy.PackageFactories.{insert_all}
use yonderboy.Job.{send}
use yonderboy.Prelude.Text.{codes}
use yonderboy.Server.{DisplayManager, Server, View, ok, update}
use yonderboy.DisplayManager.{
  link, unlink, disconnect, construct_view_disconnect_package,
  construct_renderer_disconnect_package, connect, load_renderer, renderer_fields,
}

-- The two maps say the same.
abbrev pub IsMatching : DisplayManager → Type 0
IsMatching d =
    (view r : ℕ) → (find view d.renderer_by_view ≡ some r) ↔ (find r d.view_by_renderer ≡ some view)

-- Disconnecting a view from the renderer that it is connected to keeps the map from views to
-- renderers and the map back saying the same.
pub unlink-IsMatching :
    (view r : ℕ) (d : DisplayManager)
    → IsMatching d
    → find view d.renderer_by_view ≡ some r
    → IsMatching (unlink view r d)
unfolding unlink
unlink-IsMatching view r d m e v q = ground (
  arith,
  find-erase view v d.renderer_by_view,
  find-erase r q d.view_by_renderer,
  m view r,
  m v q,
  m v r,
  m view q,
)

-- Connecting a view and a renderer, each of which is free or connected to the other, keeps the
-- map from views to renderers and the map back saying the same.
pub link-IsMatching :
    (view r : ℕ) (d : DisplayManager)
    → IsMatching d
    → find view d.renderer_by_view ≡ none ⊎ find view d.renderer_by_view ≡ some r
    → find r d.view_by_renderer ≡ none ⊎ find r d.view_by_renderer ≡ some view
    → IsMatching (link view r (unlink view r d))
unfolding unlink link
link-IsMatching view r d m e f v q = ground (
  arith,
  find-insert view v r (unlink view r d).renderer_by_view,
  find-erase view v d.renderer_by_view,
  find-insert r q view (unlink view r d).view_by_renderer,
  find-erase r q d.view_by_renderer,
  m view r,
  m v q,
  m v r,
  m view q,
)

-- Where a view that is connected to one renderer is connected to another, the map from views
-- names the new renderer, but the map back still leads from the old renderer to the view.
pub link-Stale :
    (view r old : ℕ) (d : DisplayManager)
    → IsMatching d
    → find view d.renderer_by_view ≡ some old
    → old ≢ r
    → (find view (link view r (unlink view r d)).renderer_by_view ≡ some r)
      × (find old (link view r (unlink view r d)).view_by_renderer ≡ some view)
unfolding unlink link
link-Stale view r old d m e ne = ground (
  arith,
  find-insert view view r (unlink view r d).renderer_by_view,
  find-erase view view d.renderer_by_view,
  find-insert r old view (unlink view r d).view_by_renderer,
  find-erase r old d.view_by_renderer,
  m view old,
)

-- A view and a renderer with different types of display information, or a view that has been
-- shown before and may not be shown again, are not connected: nothing changes.
pub connect-refuses :
    (view r : ℕ) (job : Option ℕ) (s : Server) (v : View) (h : Host) (f : RendererFields)
    → s.view_heap view ≡ some v
    → s.host_heap r ≡ some h
    → h.role ≡ renderer f
    → not (bytes_eq v.display_information_type f.display_information_type)
        || (v.assigned && not v.reassignable)
      ≡ true
    → connect view r job s ≡ ok tt s
unfolding connect load_renderer renderer_fields
connect-refuses view r job s v h f a b c g = ground arith

unlinked : (view r : ℕ) (d : DisplayManager) → find view (unlink view r d).renderer_by_view ≡ none
unfolding unlink
unlinked view r d = find-erase_self view d.renderer_by_view

-- The package that a viewer gets, with no renderer named in it.
abbrev pub nameless_disconnect : View → Package
nameless_disconnect v =
    make_package
      (some (
        insert_all
          ((codes "type", codes "command")
            ∷ (codes "command", codes "disconnect-from-renderer")
            ∷ (codes "view-id", v.id)
            ∷ [])
          []))
      []

-- Disconnecting a view of one host from a renderer takes both out of the two maps and tells both
-- hosts; the viewer's package names no renderer, since the maps were cleared before it was made.
pub disconnect-unlinks :
    (view r : ℕ) (s : Server) (v : View) (h k : Host)
    → s.view_heap view ≡ some v
    → s.host_heap v.host ≡ some h
    → s.host_heap r ≡ some k
    → v.host ≢ r
    → disconnect view r s
      ≡ ok tt (record s {
        host_heap =
            update
              (update s.host_heap v.host
                (some (send_package (some (nameless_disconnect v)) true h)))
              r
              (some (send_package (some construct_renderer_disconnect_package) true k));
        display_manager = unlink view r s.display_manager;
      })
unfolding disconnect construct_view_disconnect_package send
disconnect-unlinks view r s v h k a b c d = ground (arith, unlinked view r s.display_manager)
