-- ===== src/Tests/Jobs.antt =====
-- Jobs and requests: runs of JobManager and of what hosts do with a job.
use yonderboy.Prelude.{
  ◌≡◌, ◌<◌, refl, subst, arith, inl, inr, none, some, ◌∷◌, [], true, false, bytes_key, nat_key,
  pair_key, Bool-cases, ◌==◌, All,
}
use yonderboy.Prelude.Map.{find}
use yonderboy.Macros.{request, response, command}
use yonderboy.Package.{Package}
use yonderboy.AbstractHost.{send_package}
use yonderboy.Server.{host_after, Server, Job, ok, update, ◌>>◌}
use yonderboy.Job
use yonderboy.JobManager.Finishing.{finish_job-acknowledges, without_job, acknowledged, released}
use yonderboy.Job.{remove_first, job_of}
use yonderboy.JobManager.{finish_job, request_answered}
use yonderboy.JobManager.Termination.{IsOrdered, Ends, finish_job-EndsFrom}
use yonderboy.JobManager.Mapping.{relayed}
use yonderboy.ClientHosts.{forward_job}
use yonderboy.ClientHosts.Forwarding.{relay-request}
use yonderboy.Tests.Data.{a_renderer, a_controller, a_host, no_views, a_server, a_package, a_job}

-- The job 10 waits for the job 12.
abbrev waited_for : Job
waited_for = record (a_job (a_package command [])) { dependent_jobs = 10 ∷ [] }

abbrev waiting : Job
waiting = record (a_job (a_package command [])) { dependencies = 12 ∷ []; dependencies_used = true }

abbrev two_jobs : Server
two_jobs = record (a_server no_views (a_package command [])) {
  job_heap = update (update (λ q. none) 10 (some waiting)) 12 (some waited_for);
}

two_jobs-IsOrdered : IsOrdered two_jobs
two_jobs-IsOrdered p j h = elim (Bool-cases (p == 12)) [
  | inl e ↦
      let a : 12 ≡ p = ground arith in
      let b : waited_for ≡ j = ground arith in
      subst (λ q. (q < 40) × All (λ d. d < q) j.dependent_jobs) a
        (omega arith, subst (λ k. All (λ d. d < 12) k.dependent_jobs) b (omega arith, tt))
  | inr e ↦
      let a : 10 ≡ p = ground arith in
      let b : waiting ≡ j = ground arith in
      subst (λ q. (q < 40) × All (λ d. d < q) j.dependent_jobs) a
        (omega arith, subst (λ k. All (λ d. d < 10) k.dependent_jobs) b tt)
]

finish_job-EndsFrom_example : Ends (finish_job 12 two_jobs)
finish_job-EndsFrom_example = finish_job-EndsFrom 12 two_jobs two_jobs-IsOrdered

abbrev with_request : Server
with_request = a_server no_views (a_package request [])

abbrev a_response : Package
a_response = record (a_package response []) { id = 0 }

relay-request_example :
    host_after 3 ((forward_job 2 10 >> request_answered 2 a_response) with_request)
    ≡ some (send_package (some (relayed 4 a_response)) false (a_host a_controller))
unfolding find
relay-request_example =
    relay-request 2 10 with_request (a_job (a_package request [])) (a_host a_renderer)
      (a_host a_controller) a_response refl refl refl refl (omega arith) (omega arith) refl refl
      (omega arith) refl

finish_job-acknowledges_example :
    finish_job 12 two_jobs
    ≡ ok tt (
        without_job 12 waited_for (
          acknowledged 10
            (Job.remove_dependency 12 waiting)
            (a_host a_controller)
            (released 12 10 waiting two_jobs)))
finish_job-acknowledges_example =
    finish_job-acknowledges 12 10 two_jobs waited_for waiting (a_host a_controller) refl refl
      (omega arith) refl refl refl refl refl (omega arith)

abbrev waiting_twice : Job
waiting_twice = record waiting { dependencies = 11 ∷ 12 ∷ [] }

abbrev more_to_do : Server
more_to_do = record two_jobs {
  job_heap = update (update (λ q. none) 10 (some waiting_twice)) 12 (some waited_for);
}
