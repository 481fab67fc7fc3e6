-- ===== src/ClientHosts/Forwarding.antt =====
-- The way of a request to a host and of its response back: `forwardJob` of
-- daemon/src/abstract_host.cpp and `requestAnswered` of daemon/src/job_manager.cpp.
use yonderboy.Prelude.{
  ℕ, ◌+◌, ◌<◌, ◌≡◌, ◌≢◌, refl, arith, true, false, ◌||◌, none, some, nat_key, bytes_key, pair_key,
}
use yonderboy.Prelude.Text.{decimal, decimal-ne-nil, u64_mod}
use yonderboy.Prelude.Map.{find, insert, find-insert, beq_refl}
use yonderboy.Macros.{connected, established, is_state, request}
use yonderboy.Package.{Package, copy_package}
use yonderboy.AbstractHost.{Host, send_package, get_next_package_id}
use yonderboy.Server.{host_after, Server, Job, ◌>>◌, ok, update}
use yonderboy.Job.{job_of, new_job, next_package_id, send}
use yonderboy.Job.Identifiers.{advanced, numbered, construct_job-numbered, set_id-decimal}
use yonderboy.JobManager.{add_request_response_mapping, request_answered}
use yonderboy.JobManager.Mapping.{relayed, request_answered-relays}
use yonderboy.ClientHosts.{forward_job}

-- The server when a request has been forwarded to the host at `p`.
abbrev pub after_forwarding : ℕ → Host → Job → Server → Server
after_forwarding p h j s = record s {
  host_heap =
      update (update s.host_heap p (some (advanced h))) p
        (some (send_package (some (numbered h j.base)) false (advanced h)));
  job_heap = update s.job_heap s.next_ref (some (job_of p (numbered h j.base)));
  next_ref = s.next_ref + 1;
  job_manager = record (s.job_manager) {
    request_response_mapping =
        insert (p, h.next_package_id) (j.host, j.base.id) s.job_manager.request_response_mapping;
  };
}

-- Forwarding a request to an open host makes a copy under the number that the host counts, sends
-- it, keeps it as a job, advances the counter, notes the way back of the response, and changes
-- nothing else.
pub forward_job-request :
    (p job : ℕ) (s : Server) (j : Job) (h : Host)
    → s.host_heap p ≡ some h
    → s.job_heap job ≡ some j
    → j.base.type ≡ request
    → is_state h.state connected || is_state h.state established ≡ true
    → h.next_package_id < u64_mod
    → job < s.next_ref
    → forward_job p job s ≡ ok tt (after_forwarding p h j s)
unfolding forward_job next_package_id new_job add_request_response_mapping send get_next_package_id
forward_job-request p job s j h a b c d r l =
    let e =
      construct_job-numbered p j.base (decimal h.next_package_id) (decimal-ne-nil h.next_package_id)
        (record s { host_heap = update s.host_heap p (some (advanced h)) }) in
    let f = set_id-decimal h.next_package_id (copy_package j.base) r in ground arith

-- A request of one host that is forwarded to another open host, and the response that carries the
-- number which that host was given: the first host is sent the response under the identifier of
-- its own request. The number is below 2^64, was not awaited before, and the job is older than
-- the forwarded one.
pub relay-request :
    (p job : ℕ) (s : Server) (j : Job) (h k : Host) (response : Package)
    → s.host_heap p ≡ some h
    → s.job_heap job ≡ some j
    → j.base.type ≡ request
    → is_state h.state connected || is_state h.state established ≡ true
    → h.next_package_id < u64_mod
    → job < s.next_ref
    → find (p, h.next_package_id) s.job_manager.request_response_mapping ≡ none
    → s.host_heap j.host ≡ some k
    → j.host ≢ p
    → response.id ≡ h.next_package_id
    → host_after j.host ((forward_job p job >> request_answered p response) s)
      ≡ some (send_package (some (relayed j.base.id response)) false k)
relay-request p job s j h k response a b c d r l free e ne same =
    let forwarding = forward_job-request p job s j h a b c d r l in
    let t = after_forwarding p h j s in
    let way_back : find (p, response.id) t.job_manager.request_response_mapping
        ≡ some (j.host, j.base.id) =
      rw
        (
          same,
          find-insert (p, h.next_package_id) (p, h.next_package_id) (j.host, j.base.id)
              s.job_manager.request_response_mapping,
          beq_refl {K = ℕ × ℕ} (p, h.next_package_id),
          free,
        )
        refl in
    let kept : t.host_heap j.host ≡ some k = ground arith in
    let answering = request_answered-relays p j.host j.base.id response t k way_back kept in
    ground arith
