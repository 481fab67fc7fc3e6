-- ===== src/DisplayManager/Connect.antt =====
-- A whole run of `DisplayManager::connect` of daemon/src/display_manager.cpp.
use yonderboy.Prelude.{
  ℕ, ◌+◌, ◌≡◌, ◌≢◌, ◌∙◌, refl, arith, true, false, not, ◌&&◌, ◌||◌, none, some, [], ◌∷◌, nat_key,
  bytes_key, pair_key, bytes_eq,
}
use yonderboy.Prelude.Text.{codes, decimal, decimal-ne-nil}
use yonderboy.Prelude.Map.{Map, find, insert, erase, find-replaced, beq_refl}
use yonderboy.Package.{Package, make_package}
use yonderboy.PackageFactories.{insert_all}
use yonderboy.AbstractHost.{Host, RendererFields, renderer, send_package}
use yonderboy.Server.{Server, Job, View, ok, update}
use yonderboy.Job.{job_of, new_job, next_package_id, send}
use yonderboy.Job.Identifiers.{advanced, numbered, construct_job-numbered}
use yonderboy.JobManager.{add_job}
use yonderboy.DisplayManager.{
  connect, make_connection, link, unlink, load_renderer, renderer_fields,
  construct_view_connect_package, construct_renderer_connect_package, side_job, send_job, depend,
}

-- The server with a job for a host, under the number that the host counts.
abbrev with_job : ℕ → Host → Package → Server → Server
with_job host h p s = record s {
  host_heap = update s.host_heap host (some (advanced h));
  job_heap = update s.job_heap s.next_ref (some (job_of host (numbered h p)));
  next_ref = s.next_ref + 1;
}

side_job-numbers :
    (host : ℕ) (p : Package) (s : Server) (h : Host)
    → s.host_heap host ≡ some h
    → side_job host p s ≡ ok s.next_ref (with_job host h p s)
unfolding side_job new_job next_package_id
side_job-numbers host p s h a =
    let e =
      construct_job-numbered host p (decimal h.next_package_id) (decimal-ne-nil h.next_package_id)
        (record s { host_heap = update s.host_heap host (some (advanced h)) }) in
    ground arith

abbrev pub viewer_package : View → Host → RendererFields → Package
viewer_package v k f =
    make_package
      (some (
        insert_all
          ((codes "type", codes "command")
            ∷ (codes "command", codes "connect-to-renderer")
            ∷ (codes "display-information-type", f.display_information_type)
            ∷ (codes "display-information", f.display_information)
            ∷ (codes "view-id", v.id)
            ∷ (codes "renderer-id", k.id)
            ∷ [])
          []))
      []

abbrev pub renderer_package : View → Package
renderer_package v =
    make_package
      (some (
        insert_all
          ((codes "type", codes "command")
            ∷ (codes "command", codes "connect-to-view")
            ∷ (codes "display-information-type", v.display_information_type)
            ∷ (codes "display-information", v.display_information)
            ∷ [])
          []))
      []

viewer_package_lem :
    (view r : ℕ) (s : Server) (v : View) (k : Host) (f : RendererFields)
    → s.view_heap view ≡ some v
    → s.host_heap r ≡ some k
    → k.role ≡ renderer f
    → construct_view_connect_package view r s ≡ ok (viewer_package v k f) s
unfolding construct_view_connect_package load_renderer renderer_fields
viewer_package_lem view r s v k f a b c = ground arith

renderer_package_lem :
    (view : ℕ) (s : Server) (v : View)
    → s.view_heap view ≡ some v
    → construct_renderer_connect_package view s ≡ ok (renderer_package v) s
unfolding construct_renderer_connect_package
renderer_package_lem view s v a = ground arith

abbrev one_more_job : (ℕ × ℕ) → ℕ → Server → Server
one_more_job key p s = record s {
  job_manager = record (s.job_manager) {
    unfinished_jobs = insert key p s.job_manager.unfinished_jobs;
  };
}

add_job-adds :
    (p : ℕ) (s : Server) (j : Job)
    → s.job_heap p ≡ some j
    → add_job (some p) s ≡ ok tt (one_more_job (j.host, j.base.id) p s)
unfolding add_job
add_job-adds p s j a = ground arith

send_job-sends :
    (host p : ℕ) (s : Server) (j : Job) (h : Host)
    → s.job_heap p ≡ some j
    → s.host_heap host ≡ some h
    → send_job host p s
      ≡ ok tt (record s {
        host_heap = update s.host_heap host (some (send_package (some j.base) true h));
      })
unfolding send_job send
send_job-sends host p s j h a b = ground arith

-- The server behind a connection.
abbrev pub after_connect : ℕ → ℕ → Server → View → Host → Host → RendererFields → Server
after_connect view r s v h k f =
    let p = numbered h (viewer_package v k f) in
    let q = numbered k (renderer_package v) in
    let n = s.next_ref in
    record s {
      host_heap =
          update
            (update (update (update s.host_heap v.host (some (advanced h))) r (some (advanced k)))
              v.host (some (send_package (some p) true (advanced h))))
            r (some (send_package (some q) true (advanced k)));
      job_heap = update (update s.job_heap n (some (job_of v.host p))) (n + 1) (some (job_of r q));
      view_heap = update s.view_heap view (some (record v { assigned = true }));
      next_ref = n + 1 + 1;
      job_manager = record (s.job_manager) {
        unfinished_jobs =
            insert (r, q.id) (n + 1) (insert (v.host, p.id) n s.job_manager.unfinished_jobs);
      };
      display_manager = record (s.display_manager) {
        renderer_by_view = insert view r (erase view s.display_manager.renderer_by_view);
        view_by_renderer = insert r view (erase r s.display_manager.view_by_renderer);
      };
    }

make_connection-connects :
    (view r : ℕ) (s : Server) (v : View) (h k : Host) (f : RendererFields)
    → s.view_heap view ≡ some v
    → s.host_heap v.host ≡ some h
    → s.host_heap r ≡ some k
    → k.role ≡ renderer f
    → v.host ≢ r
    → make_connection view r none s ≡ ok tt (after_connect view r s v h k f)
unfolding make_connection depend link unlink
make_connection-connects view r s v h k f a b c d ne =
    let s0 = record s { display_manager = unlink view r s.display_manager } in
    let vp = viewer_package v k f in
    let rp = renderer_package v in
    let s1 = with_job v.host h vp s0 in
    let s2 = with_job r k rp s1 in
    let s3 = one_more_job (v.host, (numbered h vp).id) s.next_ref s2 in
    let s4 = one_more_job (r, (numbered k rp).id) (s.next_ref + 1) s3 in
    let s5 = record s4 {
      host_heap =
          update s4.host_heap v.host (some (send_package (some (numbered h vp)) true (advanced h)));
    } in
    let e1 = viewer_package_lem view r s0 v k f a c d in
    let e2 = renderer_package_lem view s0 v a in
    let e3 = side_job-numbers v.host vp s0 h b in
    let e4 = side_job-numbers r rp s1 k (ground arith) in
    let e5 = add_job-adds s.next_ref s2 (job_of v.host (numbered h vp)) (ground arith) in
    let e6 = add_job-adds (s.next_ref + 1) s3 (job_of r (numbered k rp)) (ground arith) in
    let e7 =
      send_job-sends v.host s.next_ref s4 (job_of v.host (numbered h vp)) (advanced h)
        (ground arith) (ground arith) in
    let e8 =
      send_job-sends r (s.next_ref + 1) s5 (job_of r (numbered k rp)) (advanced k) (ground arith)
        (ground arith) in
    ground arith

put_found : (k v : ℕ) (m : Map ℕ ℕ) → find k (insert k v (erase k m)) ≡ some v
put_found k v m = find-replaced k k v m ∙ rw (beq_refl k) refl

-- Connecting a view of one host and a renderer of another, with the same type of display
-- information, where the view may be shown, with no job that waits for it: both hosts are sent
-- the package that tells them, each under its own number and kept as an unfinished job, the two
-- maps lead to each other, the view is marked as shown, and nothing else changes.
pub connect-connects :
    (view r : ℕ) (s : Server) (v : View) (h k : Host) (f : RendererFields)
    → s.view_heap view ≡ some v
    → s.host_heap v.host ≡ some h
    → s.host_heap r ≡ some k
    → k.role ≡ renderer f
    → v.host ≢ r
    → not (bytes_eq v.display_information_type f.display_information_type)
        || (v.assigned && not v.reassignable)
      ≡ false
    → (connect view r none s ≡ ok tt (after_connect view r s v h k f))
      × (find view (after_connect view r s v h k f).display_manager.renderer_by_view ≡ some r)
      × (find r (after_connect view r s v h k f).display_manager.view_by_renderer ≡ some view)
unfolding connect load_renderer renderer_fields
connect-connects view r s v h k f a b c d ne allowed =
    let e = make_connection-connects view r s v h k f a b c d ne in
    (
      ground arith,
      put_found view r s.display_manager.renderer_by_view,
      put_found r view s.display_manager.view_by_renderer,
    )
