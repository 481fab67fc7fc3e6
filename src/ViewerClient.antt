-- ===== src/ViewerClient.antt =====
-- viewers/tabbed-gtk-viewer/src/viewer_controller.cpp: the window whose tabs are views. What GTK
-- answers is an argument, and the signals that it sends while a call runs are calls of their own; a
-- page is the socket that stands on it. A number of the progress is kept as the text it is read from.
pub mod Packages
pub mod Tables
pub mod Actions
pub mod Stati
pub mod Disconnect
use yonderboy.Prelude.{
  ℕ, ◌+◌, ◌-◌, ◌%◌, ◌^◌, Bool, true, false, not, ◌&&◌, ◌||◌, Option, none, some, List, [], ◌∷◌,
  ◌++◌, Bytes, bytes_eq, bytes_key, nat_key, ltb, leb, ◌==◌, if◌then◌else◌,
}
use yonderboy.Prelude.Text.{codes, decimal, is_empty, u64_mod, skip_spaces, read_digits, is_digit}
use yonderboy.Prelude.Map.{Map, find, insert, erase, set}
use yonderboy.Macros.{
  PackageType, unknown, command, status_change, request, response, acknowledgement,
  connection_management,
}
use yonderboy.Package.{Package, get_value, has_value}
use yonderboy.PackageFactories.{acknowledge, construct_package}
use yonderboy.ServerConnection.{ServerConnection, client_send, client_next_id}

-- `load-progress` of a tab.
pub data Progress : Type 0 where
  nothing_loaded all_loaded : Progress
  loaded : Bytes → Progress

-- The data that is hung on the socket of a tab, and its label.
pub record Tab : Type 0 where
  pub view_id : Option Bytes
  pub status : Option Bytes
  pub title : Option Bytes
  pub progress : Option Progress
  pub label : Bytes

-- `tabs` are the sockets that GTK has not destroyed; `plugs` are the windows that sockets were given;
-- `bar` and `bar_progress` are what the status bar shows.
pub record ViewerController : Type 0 where
  pub connection : ServerConnection
  pub initialised : Bool
  pub init_id : Bytes
  pub next_view_id : ℕ
  pub socket_by_id : Map Bytes ℕ
  pub id_by_socket : Map ℕ Bytes
  pub view_by_renderer : Map Bytes Bytes
  pub tabs : Map ℕ Tab
  pub plugs : List (ℕ × ℕ)
  pub bar : Option Bytes
  pub bar_progress : Option Progress
  pub quitting : Bool

abbrev pub sent_by : Package → ViewerController → ViewerController
sent_by p v = record v { connection = client_send (some p) v.connection }

-- The state of the constructor; the name and version come from the build.
unfoldable pub new_viewer : Bytes → Bytes → ServerConnection → ViewerController
new_viewer name version c =
    let (id, d) = client_next_id c in
    sent_by
      (construct_package (codes "connection-management") (
        (codes "id", id)
        ∷ (codes "command", codes "initialize")
        ∷ (codes "client-name", name)
        ∷ (codes "client-version", version)
        ∷ (codes "can-display-stati", [])
        ∷ (codes "can-have-multiple-views", [])
        ∷ []))
      (record {
        connection = d;
        initialised = false;
        init_id = id;
        next_view_id = 0;
        socket_by_id = [];
        id_by_socket = [];
        view_by_renderer = [];
        tabs = [];
        plugs = [];
        bar = none;
        bar_progress = none;
        quitting = false;
      })

-- What GTK answers while a tab is made: the new socket, whether it could become a page, its window,
-- and the socket of the current page at the end.
pub record NewTab : Type 0 where
  pub socket : Option ℕ
  pub appended : Bool
  pub window : ℕ
  pub current : Option ℕ

-- `updateFocusInfo`, for the socket of the page.
unfoldable pub update_focus_info : Option ℕ → ViewerController → ViewerController
update_focus_info none v = v
update_focus_info (some socket) v = elim (find socket v.id_by_socket) [
  | none ↦ v
  | some view ↦
      let (id, c) = client_next_id v.connection in
      sent_by
        (construct_package (codes "connection-management")
          ((codes "command", codes "got-focus") ∷ (codes "id", id) ∷ (codes "view-id", view) ∷ []))
        (record v { connection = c })
]

abbrev register_arguments : Bool → Bytes → Bytes → ℕ → Bytes → List (Bytes × Bytes)
register_arguments create id view window uri =
    (codes "command", codes "register-view")
    ∷ (codes "id", id)
    ∷ (codes "display-information-type", codes "XEMBED")
    ∷ (codes "display-information", decimal window)
    ∷ (codes "view-id", view)
    ∷ (codes "can-be-reassigned", [])
    ∷ (if create then (codes "create-renderer", []) ∷ (codes "initial-uri", uri) ∷ [] else [])

abbrev pub view_name : ℕ → Bytes
view_name n = codes "view" ++ decimal n

abbrev pub new_tab : Bytes → Tab
new_tab view = record {
  view_id = some view;
  status = none;
  title = none;
  progress = none;
  label = view;
}

-- The tables and the package for the new socket.
unfoldable pub enter_tab : NewTab → ℕ → Bool → Bytes → ViewerController → ViewerController
enter_tab answer socket create uri v =
    let view = view_name v.next_view_id in
    let (id, c) = client_next_id v.connection in
    sent_by
      (construct_package (codes "connection-management")
        (register_arguments create id view answer.window uri))
      (record v {
        connection = c;
        next_view_id = (v.next_view_id + 1) % u64_mod;
        socket_by_id = insert view socket v.socket_by_id;
        id_by_socket = insert socket view v.id_by_socket;
        tabs = set socket (new_tab view) v.tabs;
      })

unfoldable pub create_new_tab : NewTab → Bool → Bytes → ViewerController → ViewerController
create_new_tab answer create uri v = elim answer.socket [
  | none ↦ v
  | some socket ↦
      if v.initialised && answer.appended
      then update_focus_info answer.current (enter_tab answer socket create uri v)
      else v
]

-- `closeTab`, for the socket of the page. The arguments of the package lack the null pointer that
-- ends them; `behind` is what is found there.
unfoldable pub close_tab :
    List (Bytes × Bytes) → Option ℕ → Bool → ViewerController → ViewerController
close_tab behind none keep v = v
close_tab behind (some socket) keep v = elim (find socket v.id_by_socket) [
  | none ↦ v
  | some view ↦
      let (id, c) = client_next_id v.connection in
      sent_by
        (construct_package (codes "connection-management") (
          (codes "command", codes "unregister-view")
          ∷ (codes "id", id)
          ∷ (codes "view-id", view)
          ∷ (if keep then (codes "keep-renderer", []) ∷ behind else behind)))
        (record v { connection = c; tabs = erase socket v.tabs })
]

unfoldable pub retrieve_socket : Bytes → ViewerController → Option ℕ
retrieve_socket view v = find view v.socket_by_id

-- `signalSocketClosed` and `gtkDestroyCallback`
unfoldable pub go_down : ViewerController → ViewerController
go_down v = record v { quitting = true }

-- The callbacks of the window and of the hotkeys, for what GTK says of the current page.
unfoldable pub window_toplevel_focus_callback :
    Bool → Option ℕ → ViewerController → ViewerController
window_toplevel_focus_callback focused current v =
    if focused then update_focus_info current v else v

unfoldable pub new_tab_callback : NewTab → ViewerController → ViewerController
new_tab_callback answer v = create_new_tab answer true [] v

unfoldable pub new_tab_without_renderer_callback : NewTab → ViewerController → ViewerController
new_tab_without_renderer_callback answer v = create_new_tab answer false [] v

unfoldable pub close_tab_callback :
    List (Bytes × Bytes) → Option ℕ → ViewerController → ViewerController
close_tab_callback behind current v = close_tab behind current false v

unfoldable pub close_tab_keep_renderer_callback :
    List (Bytes × Bytes) → Option ℕ → ViewerController → ViewerController
close_tab_keep_renderer_callback behind current v = close_tab behind current true v

-- The page that is shown after `page`, of `n` pages, and the one before it.
unfoldable pub next_tab : ℕ → ℕ → ℕ
next_tab page n = if page == n - 1 then 0 else page + 1

unfoldable pub previous_tab : ℕ → ℕ → ℕ
previous_tab page n = if page == 0 then n - 1 else page - 1
