-- ===== src/JobManager/Termination.antt =====
-- Why `JobManager::finishJob` of daemon/src/job_manager.cpp ends: a job waits for jobs that were made
-- after it.
use yonderboy.Prelude.{
  ℕ, zero, suc, ◌<◌, ◌≤◌, ◌≡◌, refl, sym, ap, subst, ◌∙◌, arith, Bool, true, false, not, ◌&&◌,
  Option, none, some, List, ◌∷◌, [], nat_key, pair_key, if◌then◌else◌, All, All-append, ◌+◌, inl,
  inr, Bool-cases, ◌==◌,
}
use yonderboy.AbstractHost.{send_package}
use yonderboy.Package.{Package}
use yonderboy.Server.{
  Server, Job, M, ◌>>=◌, ◌>>◌, ok, fault, out_of_fuel, Outcome, update, load_job, store_job,
  free_job, skip, or_fault, store_host,
}
use yonderboy.Job
use yonderboy.Job.{has_dependencies, send, job_of}
use yonderboy.JobManager.{
  finish_dependents, finish_with, job_done_loop, finish_job, job_done, send_acknowledgement,
  remove_job, add_dependency,
}

-- The jobs that wait for a job are older than it.
abbrev pub IsOrdered : Server → Type 0
IsOrdered s =
    (p : ℕ) (j : Job) → s.job_heap p ≡ some j → (p < s.next_ref) × All (λ d. d < p) j.dependent_jobs

-- The run did not use up its fuel, and where it did not crash, the order is kept.
abbrev pub Ends : Outcome (Unit {0}) → Type 0
Ends (ok u s) = IsOrdered s
Ends fault = Unit
Ends out_of_fuel = zero ≡ suc zero

abbrev pub EndsFrom : M (Unit {0}) → Type 0
EndsFrom m = (s : Server) → IsOrdered s → Ends (m s)

seq_outcome :
    (o : Outcome (Unit {0})) (k : M (Unit {0}))
    → Ends o
    → EndsFrom k
    → Ends (elim o [ ok u s ↦ k s | fault ↦ fault | out_of_fuel ↦ out_of_fuel ])
seq_outcome (ok u s) k h g = g s h
seq_outcome fault k h g = tt
seq_outcome out_of_fuel k h g = h

seq : (m k : M (Unit {0})) (s : Server) → Ends (m s) → EndsFrom k → Ends ((m >> k) s)
seq m k s h g = seq_outcome (m s) k h g

loaded :
    {A : Type 0} (o : Option A) (f : A → M (Unit {0})) (s : Server)
    → ((a : A) → o ≡ some a → Ends (f a s))
    → Ends (elim (or_fault o s) [ ok a t ↦ f a t | fault ↦ fault | out_of_fuel ↦ out_of_fuel ])
loaded (some a) f s h = h a refl
loaded none f s h = tt

with_job :
    (p : ℕ) (f : Job → M (Unit {0})) (s : Server)
    → ((j : Job) → s.job_heap p ≡ some j → Ends (f j s))
    → Ends ((load_job p >>= f) s)
with_job p f s h = loaded (s.job_heap p) f s h

store_job-Ends :
    (p : ℕ) (j k : Job) (s : Server)
    → IsOrdered s
    → s.job_heap p ≡ some k
    → j.dependent_jobs ≡ k.dependent_jobs
    → Ends (store_job p j s)
store_job-Ends p j k s o e same q i f = elim (Bool-cases (q == p)) [
  | inl h ↦
      let l = o p k e in
      let a : p ≡ q = ground arith in
      let b : j ≡ i = ground arith in
      subst (λ r. (r < s.next_ref) × All (λ d. d < r) i.dependent_jobs) a
        (l.0, subst (λ ds. All (λ d. d < p) ds) (sym same ∙ ap (λ x. x.dependent_jobs) b) l.1)
  | inr h ↦ o q i (ground arith)
]

free_job-EndsFrom : (p : ℕ) → EndsFrom (free_job p)
free_job-EndsFrom p s o =
    with_job p (λ j t. ok tt (record t { job_heap = update t.job_heap p none })) s
      λ j e q i f. o q i (ground arith)

send-EndsFrom : (host : ℕ) (p : Option Package) (with_id : Bool) → EndsFrom (send host p with_id)
unfolding send
send-EndsFrom host p with_id s o =
    loaded (s.host_heap host) (λ h. store_host host (send_package p with_id h)) s λ h e. o

remove_job-EndsFrom : (p : ℕ) → EndsFrom (remove_job p)
unfolding remove_job
remove_job-EndsFrom p s o = with_job p _ s λ j e. o

if-EndsFrom : (b : Bool) (m : M (Unit {0})) → EndsFrom m → EndsFrom (if b then m else skip)
if-EndsFrom true m h = h
if-EndsFrom false m h = λ s o. o

module _ (n : ℕ) (done : ℕ → M (Unit {0})) (ends : (d : ℕ) → d < n → EndsFrom (done d))
    (p : ℕ) where
  finish_dependents-EndsFrom :
      (ds : List ℕ) → All (λ d. d < n) ds → EndsFrom (finish_dependents done p ds)
  unfolding finish_dependents
  finish_dependents-EndsFrom [] h s o = o
  finish_dependents-EndsFrom (d ∷ ds) h s o =
      let check : Job → M (Unit {0}) =
        λ k. if k.dependencies_used && not (has_dependencies k) then done d else skip in
      let rest : Job → M (Unit {0}) = λ k. check k >> finish_dependents done p ds in
      with_job d (λ j. store_job d (Job.remove_dependency p j) >> (load_job d >>= rest)) s
        λ j e.
          seq (store_job d (Job.remove_dependency p j)) (load_job d >>= rest) s
            (store_job-Ends d (Job.remove_dependency p j) j s o e refl)
            λ t q. with_job d rest t λ k f.
              seq (check k) (finish_dependents done p ds) t
                (if-EndsFrom (k.dependencies_used && not (has_dependencies k)) (done d) (ends d h.0)
                  t q)
                (finish_dependents-EndsFrom ds h.1)

  finish_with-Ends :
      (s : Server)
      → IsOrdered s
      → ((j : Job) → s.job_heap p ≡ some j → All (λ d. d < n) j.dependent_jobs)
      → Ends (finish_with done p s)
  unfolding finish_with
  finish_with-Ends s o older =
      with_job p (λ j. finish_dependents done p j.dependent_jobs >> (remove_job p >> free_job p)) s
        λ j e.
          seq (finish_dependents done p j.dependent_jobs) (remove_job p >> free_job p) s
            (finish_dependents-EndsFrom j.dependent_jobs (older j e) s o)
            λ t q.
              seq (remove_job p) (free_job p) t (remove_job-EndsFrom p t q) (free_job-EndsFrom p)

send_acknowledgement-EndsFrom : (p : ℕ) → EndsFrom (send_acknowledgement p)
unfolding send_acknowledgement
send_acknowledgement-EndsFrom p s o = with_job p _ s λ j e. send-EndsFrom j.host _ true s o

All-below : (p n : ℕ) (ds : List ℕ) → p ≤ n → All (λ d. d < p) ds → All (λ d. d < n) ds
All-below p n [] h a = tt
All-below p n (d ∷ ds) h a = (omega arith, All-below p n ds h a.1)

job_done_loop-EndsFrom : (fuel p : ℕ) → p < fuel → EndsFrom (job_done_loop fuel p)
unfolding job_done_loop
job_done_loop-EndsFrom zero p h s o = absurd (omega arith)
job_done_loop-EndsFrom (suc fuel) p h s o =
    seq (send_acknowledgement p) (finish_with (job_done_loop fuel) p) s
      (send_acknowledgement-EndsFrom p s o)
      λ t q.
        finish_with-Ends fuel (job_done_loop fuel) (job_done_loop-EndsFrom fuel) p t q
          λ j e. All-below p fuel j.dependent_jobs (omega arith) (q p j e).1

-- Where the jobs that wait for a job are older than it, finishing a job, with all the jobs that
-- this finishes in turn, ends within as many levels as there have been objects, and keeps that
-- order; a null pointer on the way may make it crash.
pub finish_job-EndsFrom : (p : ℕ) → EndsFrom (finish_job p)
unfolding finish_job
finish_job-EndsFrom p s o =
    finish_with-Ends s.next_ref (job_done_loop s.next_ref) (job_done_loop-EndsFrom s.next_ref) p s o
      λ j e. All-below p s.next_ref j.dependent_jobs (omega (arith, (o p j e).0)) (o p j e).1

-- Where the jobs that wait for a job are older than it, acknowledging and finishing a job ends
-- within the fuel and keeps that order; a null pointer on the way may make it crash.
pub job_done-EndsFrom : (p : ℕ) → EndsFrom (job_done p)
unfolding job_done
job_done-EndsFrom p s o =
    seq (send_acknowledgement p) (finish_job p) s (send_acknowledgement-EndsFrom p s o)
      (finish_job-EndsFrom p)

store_job-older :
    (p : ℕ) (j : Job) (s : Server)
    → IsOrdered s
    → p < s.next_ref
    → All (λ d. d < p) j.dependent_jobs
    → Ends (store_job p j s)
store_job-older p j s o l older q i f = elim (Bool-cases (q == p)) [
  | inl h ↦
      let a : p ≡ q = ground arith in
      let b : j ≡ i = ground arith in
      subst (λ r. (r < s.next_ref) × All (λ d. d < r) i.dependent_jobs) a
        (l, subst (λ x. All (λ d. d < p) x.dependent_jobs) b older)
  | inr h ↦ o q i (ground arith)
]

-- Making a job wait for a job that was made after it keeps it true that the jobs that wait for a
-- job are older than it.
pub add_dependency-EndsFrom :
    (dependent dependency : ℕ)
    → dependent < dependency
    → EndsFrom (add_dependency dependent dependency)
unfolding add_dependency
add_dependency-EndsFrom dependent dependency h s o =
    let last : M (Unit {0}) =
      load_job dependency >>= λ k. store_job dependency (Job.add_dependent_job dependent k) in
    with_job dependent (λ j. store_job dependent (Job.add_dependency dependency j) >> last) s
      λ j e.
        seq (store_job dependent (Job.add_dependency dependency j)) last s
          (store_job-Ends dependent (Job.add_dependency dependency j) j s o e refl)
          λ t q.
            with_job dependency (λ k. store_job dependency (Job.add_dependent_job dependent k)) t
              λ k f.
                store_job-older dependency (Job.add_dependent_job dependent k) t q
                  (q dependency k f).0
                  (All-append (λ d. d < dependency) k.dependent_jobs (dependent ∷ [])
                    (q dependency k f).1 (h, tt))

-- A new job waits for nothing and nothing waits for it.
pub new_job_ref-IsOrdered :
    (host : ℕ) (p : Package) (s : Server)
    → IsOrdered s
    → IsOrdered (record s {
      job_heap = update s.job_heap s.next_ref (some (job_of host p));
      next_ref = s.next_ref + 1;
    })
new_job_ref-IsOrdered host p s o q i f = elim (Bool-cases (q == s.next_ref)) [
  | inl h ↦
      let b : job_of host p ≡ i = ground arith in
      (ground arith, subst (λ x. All (λ d. d < q) x.dependent_jobs) b tt)
  | inr h ↦ let a = o q i (ground arith) in (omega (arith, a.0), a.1)
]
