-- ===== src/Job.antt =====
-- daemon/src/job.cpp: a job is a package with the host that it came from or goes to, and with the
-- jobs that it waits for and that wait for it. The host's operations stand here through pointers.
pub mod Identifiers
use yonderboy.Prelude.{
  ℕ, Bool, true, false, not, Option, List, [], ◌∷◌, ◌++◌, Bytes, nat_key, bytes_key, pair_key,
  if◌then◌else◌, ◌==◌,
}
use yonderboy.Prelude.Text.{codes, is_empty}
use yonderboy.Prelude.Map.{insert, erase}
use yonderboy.Package.{Package, copy_package, convert_id}
use yonderboy.AbstractHost.{get_next_package_id, send_package}
use yonderboy.Server.{Job, M, ◌>>=◌, ◌>>◌, pure, load_host, store_host, new_job_ref}

abbrev pub has_dependencies : Job → Bool
has_dependencies j = not (is_empty j.dependencies)

-- `keyValueMap->erase("id")`, `insert` and, at the end of the constructor, `convertID`.
unfoldable pub set_id : Bytes → Package → Package
unfolding erase insert convert_id
set_id id p =
    let m = insert (codes "id") id (erase (codes "id") p.key_value_map) in
    convert_id (record p { key_value_map = m })

abbrev pub job_of : ℕ → Package → Job
job_of host p = record {
  base = p;
  host = host;
  dependencies = [];
  dependent_jobs = [];
  dependencies_used = false;
}

-- `AbstractHost::getNextPackageID` and `sendPackage`, through a pointer.
unfoldable pub next_package_id : ℕ → M Bytes
unfolding get_next_package_id
next_package_id host = do
  h ← load_host host
  let (id, h') = get_next_package_id h
  store_host host h'
  pure id

unfoldable pub send : ℕ → Option Package → Bool → M (Unit {0})
send host p with_id = do h ← load_host host; store_host host (send_package p with_id h)

-- `Job::Job`; an empty `new_id` is the default argument.
unfoldable pub construct_job : ℕ → Package → Bytes → M Job
unfolding set_id copy_package next_package_id
construct_job host original new_id =
    let p = copy_package original in
    let numbered = (do id ← next_package_id host; pure (job_of host (set_id id p))) in
    if not (is_empty new_id)
    then pure (job_of host (set_id new_id p))
    else if not original.has_valid_id
    then numbered
    else pure (job_of host (convert_id p))

unfoldable pub new_job : ℕ → Package → Bytes → M ℕ
new_job host original new_id = do j ← construct_job host original new_id; new_job_ref j

-- Takes out the first occurrence, as `std::find` and `erase` do.
unfoldable pub remove_first : ℕ → List ℕ → List ℕ
remove_first p [] = []
remove_first p (q ∷ qs) = if q == p then qs else q ∷ remove_first p qs

-- `addDependency`, `removeDependency`, `clearDependencies`, `addDependentJob` and
-- `removeDependentJob`.
abbrev pub add_dependency : ℕ → Job → Job
add_dependency p j = record j { dependencies_used = true; dependencies = j.dependencies ++ p ∷ [] }

abbrev pub remove_dependency : ℕ → Job → Job
remove_dependency p j = record j { dependencies = remove_first p j.dependencies }

abbrev pub clear_dependencies : Job → Job
clear_dependencies j = record j { dependencies = []; dependencies_used = false }

abbrev pub add_dependent_job : ℕ → Job → Job
add_dependent_job p j = record j { dependent_jobs = j.dependent_jobs ++ p ∷ [] }

abbrev pub remove_dependent_job : ℕ → Job → Job
remove_dependent_job p j = record j { dependent_jobs = remove_first p j.dependent_jobs }
