-- ===== src/StatusChanges.antt =====
-- Who hears of a change of status: `deliverStatusChange` of daemon/src/package_router.cpp and
-- daemon/src/status_change_package.cpp.
pub mod Hearers
use yonderboy.Prelude.{ℕ, true, ◌&&◌, some, [], ◌∷◌, bytes_key, nat_key, pair_key, if◌then◌else◌}
use yonderboy.Prelude.Text.{codes}
use yonderboy.Prelude.Map.{Map, insert, erase}
use yonderboy.Macros.{renderer_host, viewer_host, controller_host, is_component}
use yonderboy.Package.{Package, copy_package}
use yonderboy.AbstractHost.{Host, host_type}
use yonderboy.Server.{PackageRouter, M, ◌>>=◌, ◌>>◌, skip, get, load_host}
use yonderboy.Job.{send}
use yonderboy.DisplayManager.{are_connected}

-- `StatusChangePackage::StatusChangePackage` of daemon/src/status_change_package.cpp.
unfoldable pub status_change_package : Package → Host → Package
unfolding copy_package insert
status_change_package original source =
    let p = copy_package original in
    let m = insert (codes "source-id") source.id p.key_value_map in
    record p {
      key_value_map =
          if is_component (host_type source) renderer_host
          then insert (codes "source-type") (codes "renderer") m
          else m;
    }

pub deliver_to : ℕ → Package → ℕ → M (Unit {0})
unfolding send are_connected
deliver_to source change receiver = do
  h ← load_host receiver
  k ← load_host source
  if is_component (host_type h) controller_host
      then send receiver (some change) true
      else if is_component (host_type h) viewer_host && is_component (host_type k) renderer_host
      then (do
        shown ← are_connected receiver source
        if shown then send receiver (some change) true else skip)
      else skip

pub deliver_to_all : ℕ → Package → Map ℕ (Unit {0}) → M (Unit {0})
unfolding deliver_to
deliver_to_all source change [] = skip
deliver_to_all source change ((receiver, u) ∷ m) = do
  deliver_to source change receiver
  deliver_to_all source change m

-- `deliverStatusChange`
unfoldable pub deliver_status_change : ℕ → Package → M (Unit {0})
unfolding deliver_to_all status_change_package
deliver_status_change source message = do
  h ← load_host source
  s ← get
  deliver_to_all source (status_change_package message h) s.package_router.stati_receiver

unfoldable pub add_stati_receiver : ℕ → PackageRouter → PackageRouter
unfolding insert
add_stati_receiver p r = record r { stati_receiver = insert p tt r.stati_receiver }

unfoldable pub remove_stati_receiver : ℕ → PackageRouter → PackageRouter
unfolding erase
remove_stati_receiver p r = record r { stati_receiver = erase p r.stati_receiver }
