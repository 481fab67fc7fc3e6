-- ===== src/Job/Identifiers.antt =====
-- The identifier of a job: the constructor of daemon/src/job.cpp.
use yonderboy.Prelude.{ℕ, ◌<◌, ◌≡◌, ◌≢◌, refl, arith, true, Bytes, ◌∷◌, [], bytes_key}
use yonderboy.Prelude.Text.{codes, decimal, u64_mod, read_u64-decimal}
use yonderboy.Prelude.Map.{find-replace}
use yonderboy.Package.{Package, copy_package, convert_id, value_of}
use yonderboy.AbstractHost.{Host, get_next_package_id}
use yonderboy.Server.{Server, ok}
use yonderboy.Job.{set_id, job_of, construct_job}

-- A host that has handed out an identifier, and a package under the one that it hands out.
abbrev pub advanced : Host → Host
advanced h = (get_next_package_id h).1

abbrev pub numbered : Host → Package → Package
numbered h p = set_id (decimal h.next_package_id) (copy_package p)

pub construct_job-numbered :
    (host : ℕ) (original : Package) (id : Bytes)
    → id ≢ []
    → (s : Server)
    → construct_job host original id s ≡ ok (job_of host (set_id id (copy_package original))) s
unfolding construct_job
construct_job-numbered host original [] h s = absurd (h refl)
construct_job-numbered host original (c ∷ id) h s = ground arith

-- A package that is given a number carries it, in its text and as its identifier.
pub set_id-decimal :
    (n : ℕ) (p : Package)
    → n < u64_mod
    → ((set_id (decimal n) p).id ≡ n) × ((set_id (decimal n) p).has_valid_id ≡ true)
unfolding set_id convert_id value_of
set_id-decimal n p h =
    rw
      (
        set_id,
        convert_id,
        value_of,
        find-replace (codes "id") (decimal n) p.key_value_map,
        read_u64-decimal p.id n h,
      )
      (refl, refl)
