-- ===== src/HostLifecycle/Accept.antt =====
-- What the callbacks of the listeners (daemon/src/controller_listener.cpp,
-- daemon/src/viewer_listener.cpp) do with a connection.
use yonderboy.Prelude.{ℕ, ◌+◌, ◌≡◌, arith, some, bytes_key}
use yonderboy.AbstractHost.{Role, new_host}
use yonderboy.Server.{Server, HostsManager, ok, update}
use yonderboy.HostsManager.{register_as, register_host}
use yonderboy.HostLifecycle.{accept_as, controller_role}

-- An accepted connection becomes a connected host of its class, under a new reference and under
-- the identifier that the registry gives, and nothing else changes.
pub accept_as-registers :
    (role : Role) (s : Server)
    → accept_as role s
      ≡ ok s.next_ref (record s {
        host_heap = update (update s.host_heap s.next_ref (some (new_host role))) s.next_ref (
            some (record (new_host role) { id = (register_as role s.next_ref s.hosts_manager).0 }));
        next_ref = s.next_ref + 1;
        hosts_manager = (register_as role s.next_ref s.hosts_manager).1;
      })
unfolding accept_as register_host new_host
accept_as-registers role s = ground arith

-- No accepted controller becomes the main controller: whether it is interactive is known only when
-- it initializes itself, after its registration.
pub accept_controller-not_main :
    (p : ℕ) (m : HostsManager)
    → (register_as controller_role p m).1.main_controller_id ≡ m.main_controller_id
unfolding register_as
accept_controller-not_main p m = ground arith
