-- ===== src/Tests/Windows.antt =====
-- The renderer and the viewer: runs of RendererClient and ViewerClient.
use yonderboy.Prelude.{
  ◌≡◌, ◌≢◌, ◌++◌, refl, arith, Bool, true, false, none, some, List, [], ◌∷◌, bytes_key, nat_key,
  bytes_eq,
}
use yonderboy.Prelude.Text.{codes, decimal}
use yonderboy.Prelude.Map.{find, insert, set}
use yonderboy.Macros.{acknowledgement, command, request, status_change}
use yonderboy.Package.{Package, has_value, value_of}
use yonderboy.AbstractHost.{get_next_package_id, send_package}
use yonderboy.Server.{Server, ok}
use yonderboy.DisplayManager.{disconnect}
use yonderboy.DisplayManager.Connection.{nameless_disconnect}
use yonderboy.ServerConnection.{
  ServerConnection, client_callback, client_next_id, new_connection, readable,
}
use yonderboy.ServerConnection.Queues.{handled}
use yonderboy.RendererClient.{RendererController, handle_package, new_renderer, renderer_client}
use yonderboy.RendererClient.Answers.{queued, due, handle_package-answers, client_callback-answers}
use yonderboy.ViewerClient.{
  NewTab, Progress, Tab, ViewerController, create_new_tab, enter_tab, new_viewer, update_focus_info,
  view_name,
}
use yonderboy.ViewerClient.Packages.{
  connect_socket, handle_acknowledgement, handle_command, handle_package as viewer_handles,
  handle_status_change, handle_typed,
}
use yonderboy.ViewerClient.Tables.{IsTabled, create_new_tab-reused}
use yonderboy.ViewerClient.Actions.{start, later, package_handled, Actions-IsTabled}
use yonderboy.ViewerClient.Stati.{Shows, handle_status_change-connected}
use yonderboy.ViewerClient.Disconnect.{disconnect-unknown, signalled}
use yonderboy.Tests.Data.{a_host, a_renderer, a_viewer, a_package, a_server, a_view, one_view}

abbrev a_connection : ServerConnection
a_connection = new_connection (a_host a_renderer)

abbrev a_page : RendererController
a_page = new_renderer (codes "webkit") (codes "1") (codes "webkitgtk") (codes "2") 7 a_connection

-- A command, and a search for a text.
abbrev asked : List Package
asked =
    a_package command ((codes "command", codes "go-back") ∷ [])
    ∷ a_package request (
        (codes "id", codes "4")
        ∷ (codes "request-type", codes "search-in-page")
        ∷ (codes "text", codes "x")
        ∷ [])
    ∷ []

handle_package-answers_example :
    queued (handled (handle_package (λ calls. true)) asked a_page) ≡ queued a_page ++ due asked
handle_package-answers_example = handle_package-answers (λ calls. true) asked a_page

-- The packages stand in the queue of the connection.
abbrev an_asked_page : RendererController
an_asked_page = record a_page {
  connection = record a_page.connection { received_packages = asked };
}

client_callback-answers_example :
    ((client_callback renderer_client (handle_package (λ calls. true)) readable an_asked_page).0
      ≡ (true, false))
    × (queued
          (client_callback renderer_client
            (handle_package (λ calls. true))
            readable
            an_asked_page).1
        ≡ queued an_asked_page ++ due asked)
    × ((client_callback renderer_client
          (handle_package (λ calls. true))
          readable
          an_asked_page).1.connection.received_packages
        ≡ [])
client_callback-answers_example = client_callback-answers (λ calls. true) an_asked_page

abbrev a_window : ViewerController
a_window = new_viewer (codes "tabbed") (codes "1") a_connection

abbrev a_tab : NewTab
a_tab = record { socket = some 7; appended = true; window = 70; current = some 7 }

-- The window with a tab on the socket 7.
abbrev one_tab : ViewerController
one_tab = create_new_tab a_tab true [] (record a_window { initialised = true })

abbrev a_greeting_acknowledgement : Package
a_greeting_acknowledgement = a_package acknowledgement ((codes "id", codes "0") ∷ [])

no_progress : Progress → Bool
no_progress progress = false

Actions-IsTabled_example : IsTabled one_tab
unfolding new_viewer viewer_handles handle_typed create_new_tab handle_acknowledgement
    update_focus_info bytes_eq find value_of enter_tab client_next_id insert get_next_package_id
    decimal
Actions-IsTabled_example =
    Actions-IsTabled (codes "tabbed") (codes "1") a_connection (
      later start (package_handled no_progress a_tab a_greeting_acknowledgement (omega arith) refl))

create_new_tab-reused_example :
    (find (view_name 1) (enter_tab a_tab 7 true [] one_tab).socket_by_id ≡ some 7)
    × (find 7 (enter_tab a_tab 7 true [] one_tab).id_by_socket ≡ some (codes "view0"))
    × (codes "view0" ≢ view_name 1)
unfolding create_new_tab update_focus_info find enter_tab insert new_viewer decimal
create_new_tab-reused_example =
    create_new_tab-reused a_tab true [] (codes "view0") 7 one_tab Actions-IsTabled_example
      (omega arith) refl

abbrev a_connect : Package
a_connect = a_package command (
    (codes "command", codes "connect-to-renderer")
    ∷ (codes "display-information", codes "71")
    ∷ (codes "renderer-id", codes "renderer0")
    ∷ (codes "view-id", codes "view0")
    ∷ [])

abbrev a_status : Package
a_status = a_package status_change (
    (codes "source-id", codes "renderer0")
    ∷ (codes "source-type", codes "renderer")
    ∷ (codes "status", codes "load-finished")
    ∷ (codes "title", codes "A page")
    ∷ [])

abbrev a_tab_data : Tab
a_tab_data = record {
  view_id = some (codes "view0");
  status = none;
  title = none;
  progress = none;
  label = codes "view0";
}

handle_status_change-connected_example :
    (handle_command a_tab a_connect one_tab ≡ some ([], connect_socket a_connect one_tab 7))
    × ((w : ViewerController) × (handle_status_change no_progress
            (some 7)
            a_status
            (connect_socket a_connect one_tab 7)
          ≡ some w)
        × Shows a_status 7 a_tab_data one_tab w)
unfolding bytes_eq value_of find has_value create_new_tab update_focus_info enter_tab insert
    new_viewer decimal set
handle_status_change-connected_example =
    handle_status_change-connected no_progress a_tab (some 7) a_connect a_status 7 a_tab_data
      one_tab (record { named = refl; display = refl; view = refl; renderer = refl }) refl refl refl
      refl refl

disconnect-unknown_example :
    (t : Server) × (disconnect 30 2 (a_server one_view (a_package command [])) ≡ ok tt t)
    × (t.host_heap 1
        ≡ some (send_package (some (nameless_disconnect a_view)) true (a_host a_viewer)))
    × (handle_command a_tab (nameless_disconnect a_view) one_tab ≡ some (codes "unknown", one_tab))
    × (viewer_handles no_progress a_tab (nameless_disconnect a_view) one_tab
        ≡ some (signalled one_tab))
disconnect-unknown_example =
    disconnect-unknown 30 2 (a_server one_view (a_package command [])) a_view (a_host a_viewer)
      (a_host a_renderer) no_progress a_tab one_tab refl refl refl (omega arith)
