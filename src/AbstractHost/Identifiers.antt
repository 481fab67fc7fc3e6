-- ===== src/AbstractHost/Identifiers.antt =====
-- The package identifiers that daemon/src/abstract_host.cpp hands out.
use yonderboy.Prelude.{ℕ, ◌+◌, ◌≤◌, ◌<◌, ◌≢◌, arith}
use yonderboy.Prelude.Text.{decimal, u64_mod, decimal-injective}
use yonderboy.AbstractHost.{Host, get_next_package_id, update_next_package_id}

-- What `updateNextPackageID` leaves behind a package with the identifier `last`.
pub record IsAhead (last : ℕ) (h h' : Host) : Type 0 where
  pub above : last < h'.next_package_id
  pub in_range : h'.next_package_id < u64_mod
  pub grows : h.next_package_id + 100 < u64_mod → h.next_package_id ≤ h'.next_package_id

-- Behind a package whose identifier is below the largest 64-bit number, the counter is above that
-- identifier and in the range of 64 bits, and it has not gone back unless it was in the last
-- hundred.
pub update_next_package_id-IsAhead :
    (last : ℕ) (h : Host)
    → h.next_package_id < u64_mod
    → last + 1 < u64_mod
    → IsAhead last h (update_next_package_id last h)
unfolding update_next_package_id
update_next_package_id-IsAhead last h r k = ground arith

-- The identifier that is handed out next after a package of the peer is not the one of that
-- package, which is below the largest 64-bit number.
pub get_next-update :
    (last : ℕ) (h : Host)
    → h.next_package_id < u64_mod
    → last + 1 < u64_mod
    → (get_next_package_id (update_next_package_id last h)).0 ≢ decimal last
unfolding get_next_package_id
get_next-update last h r k e =
    let a = update_next_package_id-IsAhead last h r k in
    let same = decimal-injective _ last a.in_range (omega arith) e in absurd (omega arith)
