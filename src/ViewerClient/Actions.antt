-- ===== src/ViewerClient/Actions.antt =====
-- viewers/tabbed-gtk-viewer/src/viewer_controller.cpp: whatever a viewer does, its tables agree.
use yonderboy.Prelude.{
  ℕ, ◌+◌, ◌<◌, Bool, true, not, ◌&&◌, Option, some, List, [], ◌≡◌, refl, subst, arith, Bytes,
  bytes_eq, bytes_key, nat_key, inl, inr, Bool-cases, Option-cases,
}
use yonderboy.Prelude.Text.{codes, u64_mod}
use yonderboy.Prelude.Map.{find, set}
use yonderboy.Macros.{
  PackageType, unknown, command, status_change, request, response, acknowledgement,
  connection_management,
}
use yonderboy.Package.{Package, get_value, has_value}
use yonderboy.PackageFactories.{acknowledge}
use yonderboy.ServerConnection.{ServerConnection, client_send}
use yonderboy.ViewerClient.{
  ViewerController, NewTab, Progress, create_new_tab, update_focus_info, close_tab, retrieve_socket,
  new_viewer,
}
use yonderboy.ViewerClient.Packages.{
  switch_page_callback, handle_command, handle_typed, handle_package, handle_status_change,
  handle_acknowledgement, status_on_tab, with_socket, connect_socket, disconnect_socket,
  show_status, is_current, update_status_bar,
}
use yonderboy.ViewerClient.Tables.{IsTabled, focus-IsTabled, close-IsTabled, create-IsTabled}

-- What is done with a socket leaves the tables as they are.
socket-IsTabled :
    (view error : Bytes) (f : ℕ → ViewerController) (v w : ViewerController)
    → IsTabled v
    → ((socket : ℕ) → IsTabled (f socket))
    → with_socket view f v ≡ some (error, w)
    → IsTabled w
socket-IsTabled view error f v w h g e = elim (Option-cases (retrieve_socket view v)) [
  | inl a ↦ let same : v ≡ w = ground arith in subst IsTabled same h
  | inr (socket, a) ↦ elim (Option-cases (find socket v.tabs)) [
    | inl b ↦ absurd (ground arith)
    | inr (tab, b) ↦ let same : f socket ≡ w = ground arith in subst IsTabled same (g socket)
  ]
]

-- The tests of `handleCommand`.
abbrev is_connect : Package → Bool
is_connect p =
    bytes_eq (get_value p (codes "command")) (codes "connect-to-renderer")
    && (has_value p (codes "display-information")
        && (has_value p (codes "view-id") && has_value p (codes "renderer-id")))

abbrev is_disconnect : Package → Bool
is_disconnect p =
    bytes_eq (get_value p (codes "command")) (codes "disconnect-from-renderer")
    && (has_value p (codes "view-id") && has_value p (codes "renderer-id"))

command-IsTabled :
    (answer : NewTab) (p : Package) (error : Bytes) (v w : ViewerController)
    → IsTabled v
    → v.next_view_id + 1 < u64_mod
    → handle_command answer p v ≡ some (error, w)
    → IsTabled w
unfolding handle_command
command-IsTabled answer p error v w h l e = elim (Bool-cases (is_connect p)) [
  | inl a ↦
      socket-IsTabled (get_value p (codes "view-id")) error (connect_socket p v) v w h
        (λ socket. unfold connect_socket in h) (ground arith)
  | inr a ↦ elim (Bool-cases (is_disconnect p)) [
    | inl b ↦
        socket-IsTabled (get_value p (codes "view-id")) error (disconnect_socket p v) v w h
          (λ socket. unfold disconnect_socket in h) (ground arith)
    | inr b ↦ elim (Bool-cases (bytes_eq (get_value p (codes "command")) (codes "create-view"))) [
      | inl c ↦
          let same : create_new_tab answer true (get_value p (codes "initial-uri")) v ≡ w =
            ground arith in
          subst IsTabled same
            (create-IsTabled answer true (get_value p (codes "initial-uri")) v h l)
      | inr c ↦ let same : v ≡ w = ground arith in subst IsTabled same h
    ]
  ]
]

shown-IsTabled :
    (is_partial : Progress → Bool) (current : Option ℕ) (p : Package) (socket : ℕ)
    (v w : ViewerController)
    → IsTabled v
    → status_on_tab is_partial current p socket v ≡ some w
    → IsTabled w
unfolding status_on_tab update_status_bar
shown-IsTabled is_partial current p socket v w h e = elim (Option-cases (find socket v.tabs)) [
  | inl a ↦ absurd (ground arith)
  | inr (tab, a) ↦ elim (Bool-cases (is_current socket current)) [
    | inl b ↦
        let same : update_status_bar is_partial (show_status p tab)
              (record v { tabs = set socket (show_status p tab) v.tabs })
            ≡ w =
          ground arith in
        subst IsTabled same h
    | inr b ↦
        let same : record v { tabs = set socket (show_status p tab) v.tabs } ≡ w = ground arith in
        subst IsTabled same h
  ]
]

status-IsTabled :
    (is_partial : Progress → Bool) (current : Option ℕ) (p : Package) (v w : ViewerController)
    → IsTabled v
    → handle_status_change is_partial current p v ≡ some w
    → IsTabled w
unfolding handle_status_change
status-IsTabled is_partial current p v w h e =
    elim (Bool-cases (
      bytes_eq (get_value p (codes "source-type")) (codes "renderer")
      && has_value p (codes "source-id"))) [
        | inr a ↦ let same : v ≡ w = ground arith in subst IsTabled same h
        | inl a ↦ elim (Option-cases (find (get_value p (codes "source-id")) v.view_by_renderer)) [
          | inl b ↦ let same : v ≡ w = ground arith in subst IsTabled same h
          | inr (view, b) ↦ elim (Option-cases (find view v.socket_by_id)) [
            | inl c ↦ let same : v ≡ w = ground arith in subst IsTabled same h
            | inr (socket, c) ↦ shown-IsTabled is_partial current p socket v w h (ground arith)
          ]
        ]
      ]

acknowledged-IsTabled :
    (answer : NewTab) (p : Package) (v : ViewerController)
    → IsTabled v
    → v.next_view_id + 1 < u64_mod
    → IsTabled (handle_acknowledgement answer p v)
unfolding handle_acknowledgement
acknowledged-IsTabled answer p v h l =
    elim (Bool-cases (bytes_eq (get_value p (codes "id")) v.init_id && not v.initialised)) [
      | inl a ↦
          rw (handle_acknowledgement, a)
            (create-IsTabled answer true [] (record v { initialised = true }) h l)
      | inr a ↦ rw (handle_acknowledgement, a) h
    ]

typed-IsTabled :
    (is_partial : Progress → Bool) (answer : NewTab) (t : PackageType) (p : Package)
    (v w : ViewerController)
    → IsTabled v
    → v.next_view_id + 1 < u64_mod
    → handle_typed is_partial answer t p v ≡ some w
    → IsTabled w
unfolding handle_typed
typed-IsTabled is_partial answer command p v w h l e =
    elim (Option-cases (handle_command answer p v)) [
      | inl a ↦ absurd (ground arith)
      | inr ((error, x), a) ↦
          let done : IsTabled x = command-IsTabled answer p error v x h l a in
          let same : record x { connection = client_send (acknowledge p error) x.connection } ≡ w =
            ground arith in
          subst IsTabled same done
    ]
typed-IsTabled is_partial answer status_change p v w h l e =
    status-IsTabled is_partial answer.current p v w h e
typed-IsTabled is_partial answer acknowledgement p v w h l e =
    let same : handle_acknowledgement answer p v ≡ w = ground arith in
    subst IsTabled same (acknowledged-IsTabled answer p v h l)
typed-IsTabled is_partial answer connection_management p v w h l e =
    let same : v ≡ w = ground arith in subst IsTabled same h
typed-IsTabled is_partial answer unknown p v w h l e =
    let same : v ≡ w = ground arith in subst IsTabled same h
typed-IsTabled is_partial answer request p v w h l e =
    let same : v ≡ w = ground arith in subst IsTabled same h
typed-IsTabled is_partial answer response p v w h l e =
    let same : v ≡ w = ground arith in subst IsTabled same h

-- What happens to a viewer. A step that faults leads nowhere, and the numbers of views do not wrap.
pub data Action (v : ViewerController) : ViewerController → Type 0 where
  tab_made :
      (answer : NewTab) (create : Bool) (uri : Bytes)
      → v.next_view_id + 1 < u64_mod
      → Action v (create_new_tab answer create uri v)
  tab_closed :
      (behind : List (Bytes × Bytes)) (page : Option ℕ) (keep : Bool)
      → Action v (close_tab behind page keep v)
  page_shown : (page : Option ℕ) → Action v (update_focus_info page v)
  package_handled :
      {w : ViewerController} (is_partial : Progress → Bool) (answer : NewTab) (p : Package)
      → v.next_view_id + 1 < u64_mod
      → handle_package is_partial answer p v ≡ some w
      → Action v w
  page_switched :
      {w : ViewerController} (is_partial : Progress → Bool) (page : ℕ)
      → switch_page_callback is_partial page v ≡ some w
      → Action v w

pub data Actions (v : ViewerController) : ViewerController → Type 0 where
  start : Actions v v
  later : {w x : ViewerController} → Actions v w → Action w x → Actions v x

switched-IsTabled :
    (is_partial : Progress → Bool) (page : ℕ) (v w : ViewerController)
    → IsTabled v
    → switch_page_callback is_partial page v ≡ some w
    → IsTabled w
unfolding switch_page_callback update_status_bar
switched-IsTabled is_partial page v w h e = elim (Option-cases (find page v.tabs)) [
  | inl a ↦ absurd (ground arith)
  | inr (tab, a) ↦
      let x = update_status_bar is_partial tab v in
      let same : update_focus_info (some page) x ≡ w = ground arith in
      subst IsTabled same (focus-IsTabled (some page) x h)
]

Action-IsTabled : {v w : ViewerController} → Action v w → IsTabled v → IsTabled w
unfolding handle_package
Action-IsTabled {v} (tab_made answer create uri l) h = create-IsTabled answer create uri v h l
Action-IsTabled {v} (tab_closed behind page keep) h = close-IsTabled behind page keep v h
Action-IsTabled {v} (page_shown page) h = focus-IsTabled page v h
Action-IsTabled {v} {w} (package_handled is_partial answer p l e) h =
    typed-IsTabled is_partial answer p.type p v w h l e
Action-IsTabled {v} {w} (page_switched is_partial page e) h =
    switched-IsTabled is_partial page v w h e

new-IsTabled : (name version : Bytes) (c : ServerConnection) → IsTabled (new_viewer name version c)
unfolding new_viewer find
new-IsTabled name version c = record {
  back = λ socket view e. absurd (ground arith);
  fresh = λ k a b. refl;
}

-- Whatever a viewer does from its start on, as long as its counter of views does not wrap around,
-- the view that a socket stands for leads back to the socket, and no view has a name that is
-- still to come.
pub Actions-IsTabled :
    (name version : Bytes) (c : ServerConnection) {v : ViewerController}
    → Actions (new_viewer name version c) v
    → IsTabled v
Actions-IsTabled name version c start = new-IsTabled name version c
Actions-IsTabled name version c (later r s) = Action-IsTabled s (Actions-IsTabled name version c r)
