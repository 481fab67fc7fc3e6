-- ===== src/Tests/Hosts.antt =====
-- Hosts, views and their connections: runs of HostsManager, HostLifecycle, DisplayManager,
-- ConfigurationManager and DecisionMaker.
use yonderboy.IpcListener.{
  Descriptors, SocketAnswers, new_listener, accept_client, connection,
  would_block as nothing_to_accept, accept_failed,
}
use yonderboy.IpcListener.Leaks.{IsClean, new_listener-IsClean, accept_client-IsClean}
use yonderboy.Prelude.Text.{codes}
use yonderboy.Prelude.{Bool, is_some, true, false}
use yonderboy.Prelude.{
  ◌≡◌, refl, arith, inl, none, some, ◌∷◌, [], true, bytes_eq, bytes_key, nat_key, if◌then◌else◌,
}
use yonderboy.Prelude.Text.{codes}
use yonderboy.Prelude.Map.{find}
use yonderboy.Macros.{disconnected, renderer_host, command, positive, cant_decide}
use yonderboy.Server.{Server, ok, update}
use yonderboy.HostsManager.{register_as, get_host}
use yonderboy.HostsManager.Registry.{IsFresh, get_host-register_as, register_as-IsFresh}
use yonderboy.HostLifecycle.{controller_role}
use yonderboy.HostLifecycle.Accept.{accept_controller-not_main}
use yonderboy.DisplayManager.{link, unlink, connect}
use yonderboy.DisplayManager.Connection.{IsMatching, link-IsMatching}
use yonderboy.DecisionMaker.{Maker}
use yonderboy.DisplayManager.Connect.{connect-connects, after_connect}
use yonderboy.Tests.Data.{
  a_controller, xembed_renderer, a_renderer, a_viewer, a_host, a_registry, no_views, one_view,
  a_view, a_server, a_package,
}

a_registry-IsFresh : IsFresh a_registry
unfolding find
a_registry-IsFresh role n h l = refl

get_host-register_as_example :
    get_host (codes "renderer0") (register_as a_renderer 2 a_registry).1 ≡ (
      if bytes_eq (register_as a_renderer 2 a_registry).0 (codes "renderer0")
      then (renderer_host, some 2)
      else get_host (codes "renderer0") a_registry)
get_host-register_as_example =
    get_host-register_as a_renderer 2 a_registry (codes "renderer0") (omega arith)
      a_registry-IsFresh

register_as-IsFresh_example : IsFresh (register_as a_viewer 1 a_registry).1
register_as-IsFresh_example =
    register_as-IsFresh a_viewer 1 a_registry (omega arith) a_registry-IsFresh

accept_controller-not_main_example :
    (register_as controller_role 3 a_registry).1.main_controller_id ≡ []
accept_controller-not_main_example = accept_controller-not_main 3 a_registry

no_views-IsMatching : IsMatching no_views
unfolding find
no_views-IsMatching view r = ground arith

one_view-IsMatching : IsMatching one_view
unfolding find
one_view-IsMatching view r = ground arith

link-IsMatching_example : IsMatching (link 30 2 (unlink 30 2 no_views))
unfolding find
link-IsMatching_example = link-IsMatching 30 2 no_views no_views-IsMatching (inl refl) (inl refl)

-- The view 30 has been shown before, and may not be shown by another renderer.
abbrev assigned_view : Server
assigned_view = record (a_server no_views (a_package command [])) {
  view_heap = update (λ q. none) 30 (some (record a_view { assigned = true }));
}

abbrev yes : Maker
yes information = positive

abbrev unsure : Maker
unsure information = cant_decide

abbrev connected_server : Server
connected_server =
    after_connect 30 2 (a_server no_views (a_package command [])) a_view (a_host a_viewer)
      (a_host a_renderer) xembed_renderer

connect-connects_example :
    (connect 30 2 none (a_server no_views (a_package command [])) ≡ ok tt connected_server)
    × (find 30 connected_server.display_manager.renderer_by_view ≡ some 2)
    × (find 2 connected_server.display_manager.view_by_renderer ≡ some 30)
unfolding bytes_eq
connect-connects_example =
    connect-connects 30 2 (a_server no_views (a_package command [])) a_view (a_host a_viewer)
      (a_host a_renderer) _ refl refl refl refl (omega arith) refl

-- The controller 3 has closed its connection and waits for its deletion.
abbrev with_closed : Server
with_closed = record (a_server no_views (a_package command [])) {
  host_heap = update (λ q. none) 3 (some (record (a_host a_controller) { state = disconnected }));
  hosts_manager = record a_registry { hosts_scheduled_for_deletion = 3 ∷ []; idle_active = true };
}

abbrev two_descriptors : Descriptors
two_descriptors = record { in_use = 3 ∷ 4 ∷ []; nonblocking = 4 ∷ [] }

-- The flags of the new descriptor cannot be set.
accept_client-IsClean_example :
    IsClean 5 two_descriptors
      (is_some (accept_client (connection 5) (some false) false two_descriptors).0)
      (accept_client (connection 5) (some false) false two_descriptors).1
    × (accept_client nothing_to_accept (some false) false two_descriptors ≡ (none, two_descriptors))
    × (accept_client accept_failed (some false) false two_descriptors ≡ (none, two_descriptors))
accept_client-IsClean_example =
    accept_client-IsClean (some false) false 5 two_descriptors (omega arith, (omega arith, tt))

-- The flags are got and set, and the address is in use.
abbrev an_address_in_use : SocketAnswers
an_address_in_use = record { socket = some 5; flags = some false; set_flags = true; binds = false }

new_listener-IsClean_example :
    (false ≡ true
      → IsClean 5 two_descriptors
          (is_some (new_listener an_address_in_use (codes "viewer.sock") two_descriptors).0)
          (new_listener an_address_in_use (codes "viewer.sock") two_descriptors).1)
    × ((n : Bool)
        → false ≡ false
        → some false ≡ some n
        → true ≡ true
        → ((new_listener an_address_in_use (codes "viewer.sock") two_descriptors).0 ≡ none)
          × ((new_listener an_address_in_use (codes "viewer.sock") two_descriptors).1.in_use
              ≡ 5 ∷ 3 ∷ 4 ∷ []))
new_listener-IsClean_example =
    new_listener-IsClean an_address_in_use (codes "viewer.sock") 5 two_descriptors
      (omega arith, (omega arith, tt)) refl (omega arith)
