-- ===== src/HostsManager/Deletion.antt =====
-- The list of hosts that wait for their deletion in daemon/src/hosts_manager.cpp.
use yonderboy.Prelude.{◌≡◌, arith, none, Bytes, if◌then◌else◌, bytes_key, bytes_eq}
use yonderboy.Prelude.Map.{find-erase}
use yonderboy.Macros.{invalid_component}
use yonderboy.Server.{HostsManager}
use yonderboy.HostsManager.{get_host, schedule}

-- A host that is scheduled for deletion is no longer found under its identifier, and every other
-- identifier leads where it did.
pub get_host-schedule :
    (id j : Bytes) (m : HostsManager)
    → get_host j (schedule id m)
      ≡ (if bytes_eq id j then (invalid_component, none) else get_host j m)
unfolding schedule get_host
get_host-schedule id j m = ground (arith, find-erase id j m.hosts, bytes_key.beq_iff id j)
