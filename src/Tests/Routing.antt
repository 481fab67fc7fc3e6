-- ===== src/Tests/Routing.antt =====
-- What a client may send and where it goes: runs of CommandTable, PackageRouter, Dispatch and
-- ViewerHost.
use yonderboy.Prelude.{false, ◌≡◌, refl, none, some, ◌∷◌, [], true, bytes_key, bytes_eq, nat_key}
use yonderboy.Prelude.Text.{codes}
use yonderboy.Prelude.Map.{find}
use yonderboy.Macros.{connected, connection_management, command, controller_host}
use yonderboy.Package.{Package, value_of}
use yonderboy.AbstractHost.{Host}
use yonderboy.Server.{Server, update}
use yonderboy.HostLifecycle.{Environment}
use yonderboy.CommandTable.{CommandSpec, construct_router, is_allowed}
use yonderboy.CommandTable.Permissions.{is_allowed-construct_router, permits, rule}
use yonderboy.StatusChanges.Hearers.{deliver_to_all-Delivers, Delivers, IsReady, shows}
use yonderboy.Tests.Data.{
  one_view, a_renderer, a_viewer, a_controller, a_host, no_views, a_server, a_package,
}

abbrev no_trouble : Environment
no_trouble = record { spawn_error = none; shutdown_succeeds = true }

abbrev connect_spec : CommandSpec
connect_spec = record {
  name = codes "connect-view-to-renderer";
  target = codes "display-manager";
  sources = codes "controller" ∷ [];
}

abbrev connect_command : Package
connect_command = a_package command ((codes "command", codes "connect-view-to-renderer") ∷ [])

is_allowed-construct_router_example :
    is_allowed (construct_router (connect_spec ∷ [])) controller_host connect_command ≡ true
unfolding permits rule bytes_eq find value_of
is_allowed-construct_router_example =
    is_allowed-construct_router (connect_spec ∷ []) controller_host connect_command

abbrev with_command : Server
with_command = a_server no_views connect_command

abbrev unregister_command : Package
unregister_command =
    a_package command
      ((codes "command", codes "unregister-view") ∷ (codes "view-id", codes "1") ∷ [])

abbrev greeting : Package
greeting = a_package connection_management ((codes "command", codes "initialize") ∷ [])

-- The viewer 1 and the renderer 2 have not greeted yet.
abbrev new_connections : Server
new_connections = record (a_server no_views greeting) {
  host_heap =
      update (update (λ q. none) 1 (some (record (a_host a_viewer) { state = connected }))) 2
        (some (record (a_host a_renderer) { state = connected }));
}

abbrev new_viewer : Host
new_viewer = record (a_host a_viewer) { state = connected }

abbrev new_renderer : Host
new_renderer = record (a_host a_renderer) { state = connected }

abbrev register_command : Package
register_command =
    a_package command ((codes "command", codes "register-view") ∷ (codes "view-id", codes "2") ∷ [])

abbrev open_command : Package
open_command =
    a_package command
      ((codes "command", codes "open-uri") ∷ (codes "renderer-id", codes "renderer0") ∷ [])

abbrev with_view : Server
with_view = a_server one_view open_command

two_receivers : IsReady 2 open_command a_renderer with_view ((1, tt) ∷ (3, tt) ∷ [])
unfolding find shows
two_receivers = record {
  source_host = (a_host a_renderer, refl, refl);
  receivers = ((a_host a_viewer, true, refl, refl), ((a_host a_controller, false, refl, refl), tt));
  sorted = ((refl, tt), (tt, tt));
}

deliver_to_all-Delivers_example :
    Delivers 2 open_command a_renderer with_view ((1, tt) ∷ (3, tt) ∷ [])
deliver_to_all-Delivers_example =
    deliver_to_all-Delivers 2 open_command a_renderer ((1, tt) ∷ (3, tt) ∷ []) with_view
      two_receivers
