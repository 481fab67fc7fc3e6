-- ===== src/JobManager.antt =====
-- daemon/src/job_manager.cpp: the table of unfinished jobs, the jobs that wait for others, and the
-- table that leads a response back to the request that it answers.
pub mod Mapping
pub mod Termination
pub mod Finishing
use yonderboy.Prelude.{
  ℕ, zero, suc, true, false, not, ◌&&◌, Option, none, some, List, [], ◌∷◌, Bytes, nat_key, pair_key,
  if◌then◌else◌,
}
use yonderboy.Prelude.Text.{decimal}
use yonderboy.Prelude.Map.{find, insert, erase}
use yonderboy.Package.{Package}
use yonderboy.PackageFactories.{construct_acknowledgement, acknowledge}
use yonderboy.Server.{
  Job, JobManager, M, ◌>>=◌, ◌>>◌, pure, skip, get, modify, out_of_fuel, load_job, store_job,
  free_job,
}
use yonderboy.Job
use yonderboy.Job.{has_dependencies, new_job, send}

abbrev job_key : Job → ℕ × ℕ
job_key j = (j.host, j.base.id)

abbrev on_jobs : (JobManager → JobManager) → M (Unit {0})
on_jobs f = modify λ s. record s { job_manager = f s.job_manager }

-- `addJob`; `none` is the null pointer.
unfoldable pub add_job : Option ℕ → M (Unit {0})
add_job none = skip
add_job (some p) = do
  j ← load_job p
  on_jobs λ m. record m { unfinished_jobs = insert (job_key j) p m.unfinished_jobs }

unfoldable pub remove_job : ℕ → M (Unit {0})
remove_job p = do
  j ← load_job p
  on_jobs λ m. record m { unfinished_jobs = erase (job_key j) m.unfinished_jobs }

unfoldable pub add_dependency : ℕ → ℕ → M (Unit {0})
add_dependency dependent dependency = do
  j ← load_job dependent
  store_job dependent (Job.add_dependency dependency j)
  k ← load_job dependency
  store_job dependency (Job.add_dependent_job dependent k)

remove_dependent_from : ℕ → List ℕ → M (Unit {0})
remove_dependent_from dependent [] = skip
remove_dependent_from dependent (p ∷ ps) = do
  j ← load_job p
  store_job p (Job.remove_dependent_job dependent j)
  remove_dependent_from dependent ps

unfoldable pub clear_dependencies : ℕ → M (Unit {0})
unfolding remove_dependent_from
clear_dependencies dependent = do
  j ← load_job dependent
  remove_dependent_from dependent j.dependencies

-- `Job::sendAcknowledgement`
unfoldable pub send_acknowledgement : ℕ → M (Unit {0})
unfolding send construct_acknowledgement
send_acknowledgement p = do
  j ← load_job p
  send j.host (some (construct_acknowledgement j.base.id [])) true

-- The loop of `finishJob` over the jobs that wait for `p`; `job_done` is the recursive call.
finish_dependents : (ℕ → M (Unit {0})) → ℕ → List ℕ → M (Unit {0})
finish_dependents job_done p [] = skip
finish_dependents job_done p (d ∷ ds) = do
  j ← load_job d
  store_job d (Job.remove_dependency p j)
  k ← load_job d
  if k.dependencies_used && not (has_dependencies k) then job_done d else skip
  finish_dependents job_done p ds

finish_with : (ℕ → M (Unit {0})) → ℕ → M (Unit {0})
unfolding finish_dependents remove_job
finish_with job_done p = do
  j ← load_job p
  finish_dependents job_done p j.dependent_jobs
  remove_job p
  free_job p

-- Each level of the recursion goes to a job that waited for the one before it.
job_done_loop : ℕ → ℕ → M (Unit {0})
unfolding send_acknowledgement finish_with
job_done_loop zero p = λ s. out_of_fuel
job_done_loop (suc fuel) p = do send_acknowledgement p; finish_with (job_done_loop fuel) p

-- As much fuel as there have been objects: no chain of jobs is longer.
unfoldable pub finish_job : ℕ → M (Unit {0})
unfolding finish_with job_done_loop
finish_job p = do s ← get; finish_with (job_done_loop s.next_ref) p

unfoldable pub job_done : ℕ → M (Unit {0})
unfolding send_acknowledgement finish_job
job_done p = do send_acknowledgement p; finish_job p

unfoldable pub job_failed : ℕ → Bytes → M (Unit {0})
unfolding send finish_job acknowledge
job_failed p reason = do j ← load_job p; send j.host (acknowledge j.base reason) true; finish_job p

unfoldable pub retrieve_job : ℕ → ℕ → M (Option ℕ)
retrieve_job host id = do s ← get; pure (find (host, id) s.job_manager.unfinished_jobs)

unfoldable pub add_request_response_mapping : ℕ → ℕ → M (Unit {0})
add_request_response_mapping requesting forwarded = do
  j ← load_job requesting
  k ← load_job forwarded
  on_jobs λ m. record m {
    request_response_mapping = insert (job_key k) (job_key j) m.request_response_mapping;
  }

unfoldable pub retrieve_and_delete_mapping : ℕ → ℕ → M (Option (ℕ × ℕ))
retrieve_and_delete_mapping host id = do
  s ← get
  elim (find (host, id) s.job_manager.request_response_mapping) [
    | none ↦ pure none
    | some target ↦ do
      on_jobs
          λ m. record m { request_response_mapping = erase (host, id) m.request_response_mapping }
      pure (some target)
  ]

unfoldable pub request_answered : ℕ → Package → M (Unit {0})
request_answered host response = do
  target ← retrieve_and_delete_mapping host response.id
  elim target [
    | none ↦ skip
    | some (requester, id) ↦ do
      p ← new_job requester response (decimal id)
      j ← load_job p
      send requester (some j.base) false
      free_job p
  ]
