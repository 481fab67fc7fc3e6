-- ===== src/JobManager/Mapping.antt =====
-- The two tables of daemon/src/job_manager.cpp: the unfinished jobs, and the way back of a response.
use yonderboy.Prelude.{
  ℕ, ◌+◌, ◌≡◌, arith, false, Option, none, some, nat_key, bytes_key, pair_key, pair_beq,
  if◌then◌else◌,
}
use yonderboy.Prelude.Text.{decimal, decimal-ne-nil}
use yonderboy.Prelude.Map.{find, erase, find-insert, find-erase_self}
use yonderboy.Package.{Package, copy_package}
use yonderboy.AbstractHost.{Host, send_package}
use yonderboy.Server.{Server, Job, ◌>>=◌, ◌>>◌, ok, fault, out_of_fuel, Outcome, update}
use yonderboy.Job.{set_id, job_of, new_job, send}
use yonderboy.Job.Identifiers.{construct_job-numbered}
use yonderboy.JobManager.{
  job_key, add_job, retrieve_job, retrieve_and_delete_mapping, request_answered,
}

abbrev pub result_of : {A : Type 0} → Outcome A → Option A
result_of (ok a s) = some a
result_of fault = none
result_of out_of_fuel = none

-- A job that is added under a key with no unfinished job is found under its host and identifier,
-- and every other key leads where it did.
pub retrieve_job-add_job :
    (p host id : ℕ) (s : Server) (j : Job)
    → s.job_heap p ≡ some j
    → find (job_key j) s.job_manager.unfinished_jobs ≡ none
    → result_of ((add_job (some p) >> retrieve_job host id) s)
      ≡ some (
          if pair_beq nat_key nat_key (job_key j) (host, id)
          then some p
          else find (host, id) s.job_manager.unfinished_jobs)
unfolding add_job retrieve_job
retrieve_job-add_job p host id s j a b =
    let e = find-insert (job_key j) (host, id) p s.job_manager.unfinished_jobs in
    ground (arith, pair_key.beq_iff (job_key j) (host, id))

-- The way back of a response is found once at most: a second look under the same key finds
-- nothing.
pub retrieve_and_delete_mapping-twice :
    (host id : ℕ) (s : Server)
    → result_of
        ((retrieve_and_delete_mapping host id >>= λ _. retrieve_and_delete_mapping host id) s)
      ≡ some none
unfolding retrieve_and_delete_mapping
retrieve_and_delete_mapping-twice host id s =
    let e = find-erase_self (host, id) s.job_manager.request_response_mapping in ground arith

-- What a requester is sent: the response, under the identifier of the request.
abbrev pub relayed : ℕ → Package → Package
relayed id response = set_id (decimal id) (copy_package response)

-- A response whose way back is known is sent to the requester under the identifier of the
-- request, and the way back is forgotten; the job that carries it is deleted, and nothing else
-- changes.
pub request_answered-relays :
    (host requester id : ℕ) (response : Package) (s : Server) (h : Host)
    → find (host, response.id) s.job_manager.request_response_mapping ≡ some (requester, id)
    → s.host_heap requester ≡ some h
    → request_answered host response s
      ≡ ok tt (record s {
        host_heap =
            update s.host_heap requester (some (send_package (some (relayed id response)) false h));
        job_heap =
            update
              (update s.job_heap s.next_ref (some (job_of requester (relayed id response))))
              s.next_ref
              none;
        next_ref = s.next_ref + 1;
        job_manager = record (s.job_manager) {
          request_response_mapping =
              erase (host, response.id) s.job_manager.request_response_mapping;
        };
      })
unfolding request_answered new_job send retrieve_and_delete_mapping
request_answered-relays host requester id response s h a b =
    let e = construct_job-numbered requester response (decimal id) (decimal-ne-nil id) (record s {
      job_manager = record (s.job_manager) {
        request_response_mapping = erase (host, response.id) s.job_manager.request_response_mapping;
      };
    }) in
    ground arith
