-- ===== src/ViewerClient/Tables.antt =====
-- viewers/tabbed-gtk-viewer/src/viewer_controller.cpp: the two tables of views.
use yonderboy.Prelude.{
  ℕ, ◌+◌, ◌%◌, ◌≤◌, ◌<◌, Bool, ◌&&◌, Option, none, some, List, ◌≡◌, ◌≢◌, refl, sym, ap, subst, ◌∙◌,
  arith, Bytes, bytes_key, nat_key, inl, inr, Bool-cases, Option-cases,
}
use yonderboy.Prelude.Text.{u64_mod, decimal-injective}
use yonderboy.Prelude.Map.{Map, find, insert, find-insert, find-insert_kept, beq_refl}
use yonderboy.ViewerClient.{
  ViewerController, NewTab, view_name, enter_tab, create_new_tab, update_focus_info, close_tab,
}

view_name-injective : (m n : ℕ) → m < u64_mod → n < u64_mod → view_name m ≡ view_name n → m ≡ n
view_name-injective m n a b e = decimal-injective m n a b (ground arith)

-- What the two tables have to do with each other, where `n` numbers the next view.
pub record IsTables (n : ℕ) (sockets : Map Bytes ℕ) (ids : Map ℕ Bytes) : Type 0 where
  pub back :
      (socket : ℕ) (view : Bytes) → find socket ids ≡ some view → find view sockets ≡ some socket
  pub fresh : (k : ℕ) → n ≤ k → k < u64_mod → find (view_name k) sockets ≡ none

abbrev pub IsTabled : ViewerController → Type 0
IsTabled v = IsTables v.next_view_id v.socket_by_id v.id_by_socket

insert-fresh :
    (n k socket : ℕ) (sockets : Map Bytes ℕ)
    → n + 1 ≤ k
    → k < u64_mod
    → find (view_name k) sockets ≡ none
    → find (view_name k) (insert (view_name n) socket sockets) ≡ none
insert-fresh n k socket sockets l u h =
    elim (Bool-cases (bytes_key.beq (view_name n) (view_name k))) [
      | inl e ↦
          let same : n ≡ k =
            view_name-injective n k (omega arith) u
              ((bytes_key.beq_iff (view_name n) (view_name k)).0 e) in
          absurd (omega arith)
      | inr e ↦ rw (find-insert (view_name n) (view_name k) socket sockets, e) h
    ]

insert-back :
    (n socket page : ℕ) (view : Bytes) (sockets : Map Bytes ℕ) (ids : Map ℕ Bytes)
    → IsTables n sockets ids
    → n < u64_mod
    → find page (insert socket (view_name n) ids) ≡ some view
    → find view (insert (view_name n) socket sockets) ≡ some page
insert-back n socket page view sockets ids h l e = elim (Option-cases (find page ids)) [
  | inr (old, f) ↦
      let same : some old ≡ some view =
        sym (find-insert_kept socket page (view_name n) old ids f) ∙ e in
      find-insert_kept (view_name n) view socket page sockets (h.back page view (f ∙ same))
  | inl f ↦ elim (Bool-cases (nat_key.beq socket page)) [
    | inr g ↦ absurd (let a = find-insert socket page (view_name n) ids in ground arith)
    | inl g ↦
        let a = find-insert socket page (view_name n) ids in
        let same : view_name n ≡ view = ground arith in
        let there : socket ≡ page = (nat_key.beq_iff socket page).0 g in
        let missing = h.fresh n (omega arith) l in
        subst (λ x. find x (insert (view_name n) socket sockets) ≡ some page) same
          (rw
            (
              find-insert (view_name n) (view_name n) socket sockets,
              beq_refl (view_name n),
              missing,
            )
            (ap some there))
  ]
]

insert-IsTables :
    (n socket : ℕ) (sockets : Map Bytes ℕ) (ids : Map ℕ Bytes)
    → IsTables n sockets ids
    → n + 1 < u64_mod
    → IsTables
        ((n + 1) % u64_mod)
        (insert (view_name n) socket sockets)
        (insert socket (view_name n) ids)
insert-IsTables n socket sockets ids h l = record {
  back = λ page view e. insert-back n socket page view sockets ids h (omega arith) e;
  fresh = λ k a b.
      let up : n + 1 ≤ k = omega arith in
      insert-fresh n k socket sockets up b (h.fresh k (omega arith) b);
}

pub focus-IsTabled :
    (page : Option ℕ) (v : ViewerController) → IsTabled v → IsTabled (update_focus_info page v)
unfolding update_focus_info
focus-IsTabled none v h = h
focus-IsTabled (some socket) v h = elim (Option-cases (find socket v.id_by_socket)) [
  | inl e ↦ rw (update_focus_info, e) h
  | inr (view, e) ↦ rw (update_focus_info, e) h
]

pub close-IsTabled :
    (behind : List (Bytes × Bytes)) (page : Option ℕ) (keep : Bool) (v : ViewerController)
    → IsTabled v
    → IsTabled (close_tab behind page keep v)
unfolding close_tab
close-IsTabled behind none keep v h = h
close-IsTabled behind (some socket) keep v h = elim (Option-cases (find socket v.id_by_socket)) [
  | inl e ↦ rw (close_tab, e) h
  | inr (view, e) ↦ rw (close_tab, e) h
]

enter-IsTabled :
    (answer : NewTab) (socket : ℕ) (create : Bool) (uri : Bytes) (v : ViewerController)
    → IsTabled v
    → v.next_view_id + 1 < u64_mod
    → IsTabled (enter_tab answer socket create uri v)
unfolding enter_tab
enter-IsTabled answer socket create uri v h l =
    insert-IsTables v.next_view_id socket v.socket_by_id v.id_by_socket h l

pub create-IsTabled :
    (answer : NewTab) (create : Bool) (uri : Bytes) (v : ViewerController)
    → IsTabled v
    → v.next_view_id + 1 < u64_mod
    → IsTabled (create_new_tab answer create uri v)
unfolding create_new_tab
create-IsTabled answer create uri v h l = elim (Option-cases answer.socket) [
  | inl e ↦ rw (create_new_tab, e) h
  | inr (socket, e) ↦ elim (Bool-cases (v.initialised && answer.appended)) [
    | inl g ↦
        rw (create_new_tab, e, g)
          (focus-IsTabled answer.current (enter_tab answer socket create uri v)
            (enter-IsTabled answer socket create uri v h l))
    | inr g ↦ rw (create_new_tab, e, g) h
  ]
]

-- A new tab on a socket that a closed tab has had, as can be when GTK uses its memory again, gets
-- a name that leads to the socket, but the socket keeps the name of the closed tab.
pub create_new_tab-reused :
    (answer : NewTab) (create : Bool) (uri old : Bytes) (socket : ℕ) (v : ViewerController)
    → IsTabled v
    → v.next_view_id < u64_mod
    → find socket v.id_by_socket ≡ some old
    → (find (view_name v.next_view_id) (enter_tab answer socket create uri v).socket_by_id
        ≡ some socket)
      × (find socket (enter_tab answer socket create uri v).id_by_socket ≡ some old)
      × (old ≢ view_name v.next_view_id)
unfolding enter_tab
create_new_tab-reused answer create uri old socket v h l e =
    let view = view_name v.next_view_id in
    let missing = h.fresh v.next_view_id (omega arith) l in
    (
      rw (find-insert view view socket v.socket_by_id, beq_refl view, missing) refl,
      find-insert_kept socket socket view old v.id_by_socket e,
      λ same.
          let there : find view v.socket_by_id ≡ some socket =
            subst (λ x. find x v.socket_by_id ≡ some socket) same (h.back socket old e) in
          absurd (ground arith),
    )
