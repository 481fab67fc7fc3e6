-- ===== src/JobManager/Finishing.antt =====
-- What finishing a job does to the job that waits for it: `JobManager::finishJob` of
-- daemon/src/job_manager.cpp.
use yonderboy.Prelude.{
  ℕ, suc, ◌<◌, ◌-◌, ◌≡◌, ◌≢◌, subst, arith, true, false, none, some, ◌∷◌, [], nat_key, pair_key,
}
use yonderboy.Prelude.Text.{is_empty}
use yonderboy.Prelude.Map.{erase}
use yonderboy.PackageFactories.{construct_acknowledgement}
use yonderboy.AbstractHost.{Host, send_package}
use yonderboy.Server.{Server, Job, M, ok, update}
use yonderboy.Job
use yonderboy.Job.{has_dependencies, send, remove_first}
use yonderboy.JobManager.{
  job_key, finish_dependents, finish_with, job_done_loop, finish_job, send_acknowledgement,
  remove_job,
}

-- The server without a job.
abbrev pub without_job : ℕ → Job → Server → Server
without_job p j s = record s {
  job_heap = update s.job_heap p none;
  job_manager = record (s.job_manager) {
    unfinished_jobs = erase (job_key j) s.job_manager.unfinished_jobs;
  };
}

finish_with-alone :
    (done : ℕ → M (Unit {0})) (p : ℕ) (s : Server) (j : Job)
    → s.job_heap p ≡ some j
    → j.dependent_jobs ≡ []
    → finish_with done p s ≡ ok tt (without_job p j s)
unfolding finish_with finish_dependents remove_job
finish_with-alone done p s j a b = ground arith

-- A job that others wait for no more is acknowledged to its host and goes.
abbrev pub acknowledged : ℕ → Job → Host → Server → Server
acknowledged d k h s = without_job d k (record s {
  host_heap =
      update s.host_heap k.host
        (some (send_package (some (construct_acknowledgement k.base.id [])) true h));
})

job_done_loop-alone :
    (fuel d : ℕ) (s : Server) (k : Job) (h : Host)
    → s.job_heap d ≡ some k
    → k.dependent_jobs ≡ []
    → s.host_heap k.host ≡ some h
    → job_done_loop (suc fuel) d s ≡ ok tt (acknowledged d k h s)
unfolding job_done_loop send_acknowledgement send
job_done_loop-alone fuel d s k h a b c =
    let t = record s {
      host_heap =
          update s.host_heap k.host
            (some (send_package (some (construct_acknowledgement k.base.id [])) true h));
    } in
    let e = finish_with-alone (job_done_loop fuel) d t k a b in ground arith

-- The server where `d` waits for `p` no more.
abbrev pub released : ℕ → ℕ → Job → Server → Server
released p d k s = record s { job_heap = update s.job_heap d (some (Job.remove_dependency p k)) }

finish_dependents-acknowledges :
    (fuel p d : ℕ) (s : Server) (k : Job) (h : Host)
    → s.job_heap d ≡ some k
    → k.dependent_jobs ≡ []
    → k.dependencies ≡ p ∷ []
    → k.dependencies_used ≡ true
    → s.host_heap k.host ≡ some h
    → finish_dependents (job_done_loop (suc fuel)) p (d ∷ []) s
      ≡ ok tt (acknowledged d (Job.remove_dependency p k) h (released p d k s))
unfolding finish_dependents remove_first
finish_dependents-acknowledges fuel p d s k h a b c u e =
    let x =
      job_done_loop-alone fuel d (released p d k s) (Job.remove_dependency p k) h (ground arith) b
        e in
    ground arith

-- Finishing a job that one other job waits for, where that job waits for nothing else and nothing
-- waits for it: the waiting job is acknowledged to its host, both jobs leave the table of
-- unfinished jobs and are deleted, and nothing else changes.
pub finish_job-acknowledges :
    (p d : ℕ) (s : Server) (j k : Job) (h : Host)
    → s.job_heap p ≡ some j
    → s.job_heap d ≡ some k
    → p < s.next_ref
    → j.dependent_jobs ≡ d ∷ []
    → k.dependencies ≡ p ∷ []
    → k.dependencies_used ≡ true
    → k.dependent_jobs ≡ []
    → s.host_heap k.host ≡ some h
    → d ≢ p
    → finish_job p s
      ≡ ok tt (without_job p j (acknowledged d (Job.remove_dependency p k) h (released p d k s)))
unfolding finish_job finish_with remove_job
finish_job-acknowledges p d s j k h a b l deps c u e f ne =
    let n : suc (s.next_ref - 1) ≡ s.next_ref = ground arith in
    let x = finish_dependents-acknowledges (s.next_ref - 1) p d s k h b e c u f in
    let y : finish_dependents (job_done_loop s.next_ref) p (d ∷ []) s
        ≡ ok tt (acknowledged d (Job.remove_dependency p k) h (released p d k s)) =
      subst
        (λ m.
          finish_dependents (job_done_loop m) p (d ∷ []) s
          ≡ ok tt (acknowledged d (Job.remove_dependency p k) h (released p d k s)))
        n x in
    ground arith

-- Finishing a job that one other job waits for, where that job waits for more: the waiting job is
-- not acknowledged and stays, waiting for the others; the finished job leaves the table and is
-- deleted, and nothing else changes.
pub finish_job-waits :
    (p d : ℕ) (s : Server) (j k : Job)
    → s.job_heap p ≡ some j
    → s.job_heap d ≡ some k
    → j.dependent_jobs ≡ d ∷ []
    → is_empty (remove_first p k.dependencies) ≡ false
    → d ≢ p
    → finish_job p s ≡ ok tt (without_job p j (released p d k s))
unfolding finish_job finish_with finish_dependents remove_job
finish_job-waits p d s j k a b deps more ne = ground arith
