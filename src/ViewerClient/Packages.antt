-- ===== src/ViewerClient/Packages.antt =====
-- viewers/tabbed-gtk-viewer/src/viewer_controller.cpp: what a viewer does with a package.
use yonderboy.Prelude.{
  ℕ, ◌-◌, ◌%◌, ◌^◌, Bool, true, false, not, ◌&&◌, ◌||◌, Option, none, some, [], ◌∷◌, ◌++◌, Bytes,
  bytes_eq, bytes_key, nat_key, leb, ◌==◌, if◌then◌else◌,
}
use yonderboy.Prelude.Text.{codes, is_empty, skip_spaces, read_digits}
use yonderboy.Prelude.Map.{find, insert, erase, set}
use yonderboy.Macros.{
  PackageType, unknown, command, status_change, request, response, acknowledgement,
  connection_management,
}
use yonderboy.Package.{Package, get_value, has_value}
use yonderboy.PackageFactories.{acknowledge}
use yonderboy.ServerConnection.{client_send}
use yonderboy.ViewerClient.{
  update_focus_info, Progress, nothing_loaded, all_loaded, loaded, Tab, ViewerController, NewTab,
  create_new_tab, retrieve_socket,
}

-- The window that a text with no blanks in front names, as a stream reads a number of 32 bits. (No
-- text at all, where the number would stay unset, does not come from a package.)
unfoldable pub read_window : Bytes → ℕ
read_window [] = 0
read_window (c ∷ cs) =
    let n = read_digits 0 (if c == b'-' || c == b'+' then cs else c ∷ cs) in
    if leb (2 ^ 32) n then 2 ^ 32 - 1 else if c == b'-' then (2 ^ 32 - n) % 2 ^ 32 else n

-- Something is done with the socket of a view. A socket that GTK has destroyed is a fault: `none`;
-- an unknown view gives the error.
abbrev pub with_socket :
    Bytes → (ℕ → ViewerController) → ViewerController → Option (Bytes × ViewerController)
with_socket view f v = elim (retrieve_socket view v) [
  | none ↦ some (codes "invalid", v)
  | some socket ↦ elim (find socket v.tabs) [ none ↦ none | some tab ↦ some ([], f socket) ]
]

unfoldable pub connect_socket : Package → ViewerController → ℕ → ViewerController
connect_socket p v socket = record v {
  plugs =
      v.plugs
      ++ (socket, 0)
        ∷ (socket, read_window (skip_spaces (get_value p (codes "display-information"))))
        ∷ [];
  view_by_renderer =
      insert (get_value p (codes "renderer-id")) (get_value p (codes "view-id"))
        (erase (get_value p (codes "renderer-id")) v.view_by_renderer);
}

unfoldable pub disconnect_socket : Package → ViewerController → ℕ → ViewerController
disconnect_socket p v socket = record v {
  plugs = v.plugs ++ (socket, 0) ∷ [];
  view_by_renderer = erase (get_value p (codes "renderer-id")) v.view_by_renderer;
}

-- The error that `handleCommand` returns, with the new state.
unfoldable pub handle_command :
    NewTab → Package → ViewerController → Option (Bytes × ViewerController)
handle_command answer p v =
    let name = get_value p (codes "command") in
    let view = get_value p (codes "view-id") in
    if bytes_eq name (codes "connect-to-renderer")
      && (has_value p (codes "display-information")
          && (has_value p (codes "view-id") && has_value p (codes "renderer-id")))
    then with_socket view (connect_socket p v) v
    else if bytes_eq name (codes "disconnect-from-renderer")
        && (has_value p (codes "view-id") && has_value p (codes "renderer-id"))
    then with_socket view (disconnect_socket p v) v
    else if bytes_eq name (codes "create-view")
    then some ([], create_new_tab answer true (get_value p (codes "initial-uri")) v)
    else some (codes "unknown", v)

abbrev set_status : Bytes → Tab → Tab
set_status status t = record t { status = some status }

abbrev or_nothing : Option Bytes → Bytes
or_nothing none = []
or_nothing (some text) = text

unfoldable pub set_title_on_tab : Bytes → Tab → Tab
set_title_on_tab title t =
    if is_empty title
    then record t { title = t.view_id; label = or_nothing t.view_id }
    else record t { title = some title; label = title }

abbrev set_progress : Progress → Tab → Tab
set_progress progress t = record t { progress = some progress }

-- What a status does to the tab of its renderer.
unfoldable pub show_status : Package → Tab → Tab
show_status p t =
    let status = get_value p (codes "status") in
    let uri = get_value p (codes "uri") in
    if bytes_eq status (codes "load-started")
    then set_status (codes "started loading " ++ uri) t
    else if bytes_eq status (codes "load-finished")
    then set_progress all_loaded (
        set_title_on_tab (get_value p (codes "title"))
          (set_status (codes "done loading " ++ uri) t))
    else if bytes_eq status (codes "load-failed")
    then set_progress nothing_loaded (set_title_on_tab [] (set_status (codes "loading failed") t))
    else if bytes_eq status (codes "progress-changed")
    then set_progress (loaded (get_value p (codes "progress"))) t
    else if bytes_eq status (codes "hovering-over-link")
    then set_status uri t
    else if bytes_eq status (codes "not-hovering-over-link")
    then set_status [] t
    else t

-- `updateStatusBar`, for the tab of the page; `is_partial` is whether a number is between 0 and 1.
unfoldable pub update_status_bar : (Progress → Bool) → Tab → ViewerController → ViewerController
update_status_bar is_partial t v = record v {
  bar = t.status;
  bar_progress = elim t.progress [
    | none ↦ none
    | some progress ↦ if is_partial progress then some progress else none
  ];
}

abbrev pub is_current : ℕ → Option ℕ → Bool
is_current socket none = false
is_current socket (some page) = page == socket

-- The status reaches the socket's tab, and the bar if the tab is the current one.
unfoldable pub status_on_tab :
    (Progress → Bool) → Option ℕ → Package → ℕ → ViewerController → Option ViewerController
status_on_tab is_partial current p socket v = elim (find socket v.tabs) [
  | none ↦ none
  | some tab ↦
      let shown = show_status p tab in
      let w = record v { tabs = set socket shown v.tabs } in
      some (if is_current socket current then update_status_bar is_partial shown w else w)
]

unfoldable pub handle_status_change :
    (Progress → Bool) → Option ℕ → Package → ViewerController → Option ViewerController
handle_status_change is_partial current p v =
    if not (
      bytes_eq (get_value p (codes "source-type")) (codes "renderer")
      && has_value p (codes "source-id"))
    then some v
    else elim (find (get_value p (codes "source-id")) v.view_by_renderer) [
      | none ↦ some v
      | some view ↦ elim (find view v.socket_by_id) [
        | none ↦ some v
        | some socket ↦ status_on_tab is_partial current p socket v
      ]
    ]

unfoldable pub handle_acknowledgement : NewTab → Package → ViewerController → ViewerController
handle_acknowledgement answer p v =
    if bytes_eq (get_value p (codes "id")) v.init_id && not v.initialised
    then create_new_tab answer true [] (record v { initialised = true })
    else v

abbrev answered : Package → Option (Bytes × ViewerController) → Option ViewerController
answered p none = none
answered p (some (error, v)) =
    some (record v { connection = client_send (acknowledge p error) v.connection })

-- The switch of `handlePackage`.
unfoldable pub handle_typed :
    (Progress → Bool) → NewTab → PackageType → Package → ViewerController → Option ViewerController
handle_typed is_partial answer command p v = answered p (handle_command answer p v)
handle_typed is_partial answer status_change p v =
    handle_status_change is_partial answer.current p v
handle_typed is_partial answer acknowledgement p v = some (handle_acknowledgement answer p v)
handle_typed is_partial answer connection_management p v = some v
handle_typed is_partial answer unknown p v = some v
handle_typed is_partial answer request p v = some v
handle_typed is_partial answer response p v = some v

unfoldable pub handle_package :
    (Progress → Bool) → NewTab → Package → ViewerController → Option ViewerController
handle_package is_partial answer p v = handle_typed is_partial answer p.type p v

-- `tabBarSwitchPageCallback`, for the socket of the page.
unfoldable pub switch_page_callback :
    (Progress → Bool) → ℕ → ViewerController → Option ViewerController
switch_page_callback is_partial page v = elim (find page v.tabs) [
  | none ↦ none
  | some tab ↦ some (update_focus_info (some page) (update_status_bar is_partial tab v))
]
