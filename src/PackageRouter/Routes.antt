-- ===== src/PackageRouter/Routes.antt =====
-- Where `PackageRouter::routeJob` and `processPackage` of daemon/src/package_router.cpp lead.
use yonderboy.Prelude.{ℕ, ◌≡◌, arith, true, false, none, some, [], bytes_key}
use yonderboy.Prelude.Text.{codes}
use yonderboy.Prelude.Map.{find}
use yonderboy.Macros.{PackageType, request, command, not_type_eq}
use yonderboy.Package.{Package, get_value}
use yonderboy.AbstractHost.{Host, send_package}
use yonderboy.PackageFactories.{acknowledge}
use yonderboy.Server.{Server, Job, ◌>>=◌, update, ok}
use yonderboy.Job.{new_job, send}
use yonderboy.HostLifecycle.{Environment}
use yonderboy.PackageRouter.{process_job, route_job, route_name, refuse_and_delete, refuse}

not_request : (t : PackageType) → not_type_eq t request ≡ false
not_request t = ground arith

-- No package makes a job that the job manager keeps, whether it asks for an acknowledgement or
-- not: a job is made and routed, and nothing else.
pub process_job-never_adds :
    (env : Environment) (host : ℕ) (p : Package) (s : Server)
    → process_job env host p s ≡ (new_job host p [] >>= λ job. route_job env job) s
unfolding process_job
process_job-never_adds env host p s = ground (arith, not_request p.type)

-- A command that the routing table does not have is answered with the error `unknown` to the host
-- that the job came from, the job is deleted, and nothing else changes.
pub route_job-unknown :
    (env : Environment) (job : ℕ) (s : Server) (j : Job) (h : Host)
    → s.job_heap job ≡ some j
    → s.host_heap j.host ≡ some h
    → j.base.type ≡ command
    → find (get_value j.base (codes "command")) s.package_router.routing_table ≡ none
    → route_job env job s
      ≡ ok tt (record s {
        host_heap =
            update s.host_heap j.host
              (some (send_package (acknowledge j.base (codes "unknown")) true h));
        job_heap = update s.job_heap job none;
      })
unfolding route_job route_name refuse_and_delete refuse send
route_job-unknown env job s j h a b c d = ground arith
