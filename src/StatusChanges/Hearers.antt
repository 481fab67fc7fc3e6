-- ===== src/StatusChanges/Hearers.antt =====
-- Who hears of a change of status: the loop of `deliverStatusChange` of
-- daemon/src/package_router.cpp.
use yonderboy.Prelude.{
  refl, subst, ◌&&◌, All, Bool-cases, inl, inr, ltb, [], ◌∷◌, ◌∙◌, ℕ, ◌≡◌, arith, Bool, true, false,
  Option, none, some, nat_key, if◌then◌else◌, ◌==◌,
}
use yonderboy.Prelude.Map.{Map, IsSorted, find, has}
use yonderboy.Package.{Package}
use yonderboy.AbstractHost.{Host, Role, renderer, viewer, controller, send_package}
use yonderboy.AbstractHost.Sending.{send_package-role}
use yonderboy.Server.{Server, ok, update}
use yonderboy.Job.{send}
use yonderboy.DisplayManager.{are_connected}
use yonderboy.StatusChanges.{deliver_to, deliver_to_all}

-- A controller hears of everything, a viewer of the renderer that one of its views shows.
unfoldable pub hears : Role → Role → Bool → Bool
hears (controller c) from shown = true
hears (viewer v) (renderer r) shown = shown
hears _ _ shown = false

-- Whether a view of the viewer shows the renderer; `none` where the view is gone.
unfoldable pub shows : Server → ℕ → ℕ → Option Bool
shows s viewer_ref source = elim (find source s.display_manager.view_by_renderer) [
  | none ↦ some false
  | some view ↦ elim (s.view_heap view) [ none ↦ none | some v ↦ some (v.host == viewer_ref) ]
]

-- A receiver of status changes is sent one if it is a controller, or if it is a viewer and the
-- change comes from a renderer that one of its views shows; any other is sent nothing, and
-- nothing else changes. The receiver and the source are there, and so is the view that shows the
-- source.
abbrev pub shows_view : Server → ℕ → ℕ → Bool
shows_view s viewer_ref source = elim (shows s viewer_ref source) [ none ↦ false | some b ↦ b ]

pub deliver_to-hears :
    (source receiver : ℕ) (change : Package) (s : Server) (h k : Host) (shown : Bool)
    → s.host_heap receiver ≡ some h
    → s.host_heap source ≡ some k
    → shows s receiver source ≡ some shown
    → deliver_to source change receiver s
      ≡ ok tt (
          if hears h.role k.role shown
          then record s {
            host_heap = update s.host_heap receiver (some (send_package (some change) true h));
          }
          else s)
unfolding deliver_to hears shows are_connected send
deliver_to-hears source receiver change s h k shown a b c = ground arith

find-above : (r : ℕ) (m : Map ℕ (Unit {0})) → All (λ e. ltb r e.0 ≡ true) m → find r m ≡ none
unfolding find
find-above r [] h = refl
find-above r (e ∷ m) h = ground (arith, find-above r m h.1, h.0)

module _ (source : ℕ) (change : Package) (from : Role) where
  -- A host behind the delivery, with whether it is a receiver and whether a view of it shows the
  -- source.
  abbrev pub told : Bool → Bool → Host → Host
  told receives shown h =
      if receives && hears h.role from shown then send_package (some change) true h else h

  -- The source, of the class that is given, and the receivers are there, with their views.
  pub record IsReady (s : Server) (m : Map ℕ (Unit {0})) : Type 0 where
    pub source_host : (k : Host) × (s.host_heap source ≡ some k) × (k.role ≡ from)
    pub receivers :
        All
          (λ e.
            (h : Host) × (b : Bool) × (s.host_heap e.0 ≡ some h) × (shows s e.0 source ≡ some b))
          m
    pub sorted : IsSorted m

  abbrev pub heard : Server → Map ℕ (Unit {0}) → ℕ → Option Host
  heard s m q = elim (s.host_heap q) [
    | none ↦ none
    | some h ↦ some (told (has q m) (shows_view s q source) h)
  ]

  -- The run ends, and each host that is there has heard of the change, once, if it should.
  pub record Delivers (s : Server) (m : Map ℕ (Unit {0})) : Type 0 where
    pub after : Server
    pub runs : deliver_to_all source change m s ≡ ok tt after
    pub hosts : (q : ℕ) → after.host_heap q ≡ heard s m q

  abbrev send_to : ℕ → Host → Server → Server
  send_to r h s = record s {
    host_heap = update s.host_heap r (some (send_package (some change) true h));
  }

  IsReady-rest : (r : ℕ) (s : Server) (m : Map ℕ (Unit {0})) → IsReady s ((r, tt) ∷ m) → IsReady s m
  IsReady-rest r s m h = record {
    source_host = h.source_host;
    receivers = h.receivers.1;
    sorted = h.sorted.1;
  }

  receivers-send_to :
      (r : ℕ) (h : Host) (s : Server) (m : Map ℕ (Unit {0}))
      → All (λ e. ltb r e.0 ≡ true) m
      → All
          (λ e.
            (h : Host) × (b : Bool) × (s.host_heap e.0 ≡ some h) × (shows s e.0 source ≡ some b))
          m
      → All
          (λ e.
            (k : Host) × (b : Bool) × ((send_to r h s).host_heap e.0 ≡ some k)
            × (shows (send_to r h s) e.0 source ≡ some b))
          m
  unfolding shows
  receivers-send_to r h s [] l a = tt
  receivers-send_to r h s (e ∷ m) l (a, others) =
      ((a.0, a.1, ground (arith, l.0, a.2), a.3), receivers-send_to r h s m l.1 others)

  IsReady-send_to :
      (r : ℕ) (h : Host) (s : Server) (m : Map ℕ (Unit {0}))
      → s.host_heap r ≡ some h
      → IsReady s ((r, tt) ∷ m)
      → IsReady (send_to r h s) m
  IsReady-send_to r h s m e a = record {
    source_host = elim (Bool-cases (source == r)) [
      | inl y ↦
          let k = a.source_host.0 in
          let f : s.host_heap source ≡ some k = a.source_host.1 in
          let g : k.role ≡ from = a.source_host.2 in
          let same : h.role ≡ from = ground arith in
          (
            send_package (some change) true h,
            ground arith,
            send_package-role (some change) true h ∙ same,
          )
      | inr n ↦ (a.source_host.0, ground (arith, a.source_host.1), a.source_host.2)
    ];
    receivers = receivers-send_to r h s m a.sorted.0 a.receivers.1;
    sorted = a.sorted.1;
  }

  same_ref : (r q : ℕ) → (r == q) ≡ true → r ≡ q
  same_ref r q n = ground arith

  -- Behind one receiver that hears of the change, and behind one that does not.
  step_told :
      (r : ℕ) (h : Host) (b : Bool) (s : Server) (m : Map ℕ (Unit {0}))
      → IsReady s ((r, tt) ∷ m)
      → s.host_heap r ≡ some h
      → shows s r source ≡ some b
      → hears h.role from b ≡ true
      → Delivers (send_to r h s) m
      → Delivers s ((r, tt) ∷ m)
  unfolding deliver_to_all shows find
  step_told r h b s m a e f x d =
      let k = a.source_host.0 in
      let y = deliver_to-hears source r change s h k b e a.source_host.1 f in
      let g : k.role ≡ from = a.source_host.2 in
      record {
        after = d.after;
        runs = ground (arith, d.runs);
        hosts = λ q. elim (Bool-cases (r == q)) [
          | inl n ↦
              d.hosts q
              ∙ subst (λ w. heard (send_to r h s) m w ≡ heard s ((r, tt) ∷ m) w) (same_ref r q n)
                  (ground (arith, find-above r m a.sorted.0))
          | inr n ↦ d.hosts q ∙ ground arith
        ];
      }

  step_silent :
      (r : ℕ) (h : Host) (b : Bool) (s : Server) (m : Map ℕ (Unit {0}))
      → IsReady s ((r, tt) ∷ m)
      → s.host_heap r ≡ some h
      → shows s r source ≡ some b
      → hears h.role from b ≡ false
      → Delivers s m
      → Delivers s ((r, tt) ∷ m)
  unfolding deliver_to_all find
  step_silent r h b s m a e f x d =
      let k = a.source_host.0 in
      let y = deliver_to-hears source r change s h k b e a.source_host.1 f in
      let g : k.role ≡ from = a.source_host.2 in
      record {
        after = d.after;
        runs = ground (arith, d.runs);
        hosts = λ q. elim (Bool-cases (r == q)) [
          | inl n ↦
              d.hosts q
              ∙ subst (λ w. heard s m w ≡ heard s ((r, tt) ∷ m) w) (same_ref r q n)
                  (ground (arith, find-above r m a.sorted.0))
          | inr n ↦ d.hosts q ∙ ground arith
        ];
      }

  -- Where the source of a status change, the receivers, and the view that shows the source are
  -- there, the delivery ends, and behind it each receiver that should hear has been sent the
  -- change, once: a controller, or a viewer with a view that shows the renderer which the change
  -- comes from. Every other host is as it was.
  pub deliver_to_all-Delivers : (m : Map ℕ (Unit {0})) (s : Server) → IsReady s m → Delivers s m
  unfolding deliver_to_all find
  deliver_to_all-Delivers [] s a = record { after = s; runs = refl; hosts = λ q. ground arith }
  deliver_to_all-Delivers ((r, u) ∷ m) s a =
      let h = a.receivers.0.0 in
      let b = a.receivers.0.1 in
      let e = a.receivers.0.2 in
      let f = a.receivers.0.3 in
      elim (Bool-cases (hears h.role from b)) [
        | inl x ↦
            step_told r h b s m a e f x
              (deliver_to_all-Delivers m (send_to r h s) (IsReady-send_to r h s m e a))
        | inr x ↦ step_silent r h b s m a e f x (deliver_to_all-Delivers m s (IsReady-rest r s m a))
      ]
