-- ===== src/ViewerClient/Stati.antt =====
-- viewers/tabbed-gtk-viewer/src/viewer_controller.cpp: status changes of renderers.
use yonderboy.Prelude.{
  ℕ, Bool, true, Option, some, [], ◌≡◌, ◌≢◌, refl, ap, ◌∙◌, arith, Bytes, bytes_eq, bytes_key,
  nat_key, inl, inr, Bool-cases,
}
use yonderboy.Prelude.Text.{codes}
use yonderboy.Prelude.Map.{Map, find, set, find-set, find-replace}
use yonderboy.Package.{Package, get_value, has_value}
use yonderboy.ViewerClient.{ViewerController, NewTab, Progress, Tab, retrieve_socket}
use yonderboy.ViewerClient.Packages.{
  handle_command, handle_status_change, status_on_tab, with_socket, connect_socket, show_status,
  is_current, update_status_bar,
}

-- The package connects a view to a renderer.
pub record IsConnect (p : Package) : Type 0 where
  pub named : bytes_eq (get_value p (codes "command")) (codes "connect-to-renderer") ≡ true
  pub display : has_value p (codes "display-information") ≡ true
  pub view : has_value p (codes "view-id") ≡ true
  pub renderer : has_value p (codes "renderer-id") ≡ true

socket_lem :
    (view : Bytes) (f : ℕ → ViewerController) (socket : ℕ) (tab : Tab) (v : ViewerController)
    → find view v.socket_by_id ≡ some socket
    → find socket v.tabs ≡ some tab
    → with_socket view f v ≡ some ([], f socket)
unfolding retrieve_socket
socket_lem view f socket tab v a b = ground arith

connect_lem :
    (answer : NewTab) (p : Package) (socket : ℕ) (tab : Tab) (v : ViewerController)
    → IsConnect p
    → find (get_value p (codes "view-id")) v.socket_by_id ≡ some socket
    → find socket v.tabs ≡ some tab
    → handle_command answer p v ≡ some ([], connect_socket p v socket)
unfolding handle_command
connect_lem answer p socket tab v h a b =
    rw (handle_command, h.named, h.display, h.view, h.renderer)
      (socket_lem (get_value p (codes "view-id")) (connect_socket p v) socket tab v a b)

-- The tab of a socket shows what the status says, and the others are as they were.
pub record Shows (q : Package) (socket : ℕ) (tab : Tab) (v w : ViewerController) : Type 0 where
  pub shown : find socket w.tabs ≡ some (show_status q tab)
  pub others : (other : ℕ) → socket ≢ other → find other w.tabs ≡ find other v.tabs

set-others :
    (socket other : ℕ) (tab : Tab) (tabs : Map ℕ Tab)
    → socket ≢ other
    → find other (set socket tab tabs) ≡ find other tabs
set-others socket other tab tabs h =
    find-set socket other tab tabs ∙ ground (arith, nat_key.beq_iff socket other)

set-shown :
    (socket : ℕ) (tab : Tab) (tabs : Map ℕ Tab) → find socket (set socket tab tabs) ≡ some tab
set-shown socket tab tabs =
    find-set socket socket tab tabs ∙ ground (arith, nat_key.beq_iff socket socket)

shown_lem :
    (is_partial : Progress → Bool) (current : Option ℕ) (q : Package) (socket : ℕ) (tab : Tab)
    (v : ViewerController)
    → find socket v.tabs ≡ some tab
    → (w : ViewerController) × (status_on_tab is_partial current q socket v ≡ some w)
      × Shows q socket tab v w
unfolding status_on_tab update_status_bar
shown_lem is_partial current q socket tab v h =
    let shown = record v { tabs = set socket (show_status q tab) v.tabs } in
    elim (Bool-cases (is_current socket current)) [
      | inl e ↦ (
        update_status_bar is_partial (show_status q tab) shown,
        rw (status_on_tab, h, e) refl,
        record {
          shown = set-shown socket (show_status q tab) v.tabs;
          others = λ other n. set-others socket other (show_status q tab) v.tabs n;
        },
      )
      | inr e ↦ (
        shown,
        rw (status_on_tab, h, e) refl,
        record {
          shown = set-shown socket (show_status q tab) v.tabs;
          others = λ other n. set-others socket other (show_status q tab) v.tabs n;
        },
      )
    ]

-- A status change of a renderer goes to the tab of its view.
status_lem :
    (is_partial : Progress → Bool) (current : Option ℕ) (q : Package) (view : Bytes) (socket : ℕ)
    (v : ViewerController)
    → bytes_eq (get_value q (codes "source-type")) (codes "renderer") ≡ true
    → has_value q (codes "source-id") ≡ true
    → find (get_value q (codes "source-id")) v.view_by_renderer ≡ some view
    → find view v.socket_by_id ≡ some socket
    → handle_status_change is_partial current q v ≡ status_on_tab is_partial current q socket v
unfolding handle_status_change
status_lem is_partial current q view socket v a b c d = ground arith

-- Once a renderer is connected to a view whose tab is there, a status change that names the
-- renderer is shown by that tab and by no other.
pub handle_status_change-connected :
    (is_partial : Progress → Bool) (answer : NewTab) (current : Option ℕ) (p q : Package)
    (socket : ℕ) (tab : Tab) (v : ViewerController)
    → IsConnect p
    → find (get_value p (codes "view-id")) v.socket_by_id ≡ some socket
    → find socket v.tabs ≡ some tab
    → bytes_eq (get_value q (codes "source-type")) (codes "renderer") ≡ true
    → has_value q (codes "source-id") ≡ true
    → get_value q (codes "source-id") ≡ get_value p (codes "renderer-id")
    → (handle_command answer p v ≡ some ([], connect_socket p v socket))
      × ((w : ViewerController) × (handle_status_change is_partial current q
              (connect_socket p v socket)
            ≡ some w)
          × Shows q socket tab v w)
unfolding connect_socket
handle_status_change-connected is_partial answer current p q socket tab v h a b c d e =
    let w = connect_socket p v socket in
    let renderer = get_value p (codes "renderer-id") in
    let view = get_value p (codes "view-id") in
    let (x, f, g) = shown_lem is_partial current q socket tab w b in
    (
      connect_lem answer p socket tab v h a b,
      (
        x,
        status_lem is_partial current q view socket w c d
              (ap (λ r. find r w.view_by_renderer) e
                ∙ find-replace renderer view v.view_by_renderer)
              a
            ∙ f,
        record { shown = g.shown; others = g.others },
      ),
    )
