-- ===== src/HostLifecycle/Idle.antt =====
-- The deletion of hosts: `idleCallback` of daemon/src/hosts_manager.cpp.
use yonderboy.Prelude.{ℕ, ◌≡◌, arith, false, none, some, List, ◌∷◌, if◌then◌else◌}
use yonderboy.Prelude.Text.{is_empty}
use yonderboy.Macros.{disconnected, is_state}
use yonderboy.AbstractHost.{Host, ControllerFields, controller}
use yonderboy.Server.{Server, ok, update}
use yonderboy.HostLifecycle.{Environment, idle_callback, delete_front, delete_host, destroy}

-- When the daemon is idle and the controller at the front of the list of hosts to delete is
-- disconnected, that host is deleted and leaves the list, the timer stops if no other is left,
-- and nothing else changes.
pub idle_callback-deletes :
    (env : Environment) (p : ℕ) (ps : List ℕ) (s : Server) (h : Host) (c : ControllerFields)
    → s.hosts_manager.hosts_scheduled_for_deletion ≡ p ∷ ps
    → s.host_heap p ≡ some h
    → h.state ≡ disconnected
    → h.role ≡ controller c
    → idle_callback env s
      ≡ ok tt (record s {
        host_heap = update s.host_heap p none;
        hosts_manager = record (s.hosts_manager) {
          hosts_scheduled_for_deletion = ps;
          idle_active = if is_empty ps then false else s.hosts_manager.idle_active;
        };
      })
unfolding idle_callback delete_front delete_host destroy
idle_callback-deletes env p ps s h c a b d e = ground arith

pub idle_callback-waits :
    (env : Environment) (p : ℕ) (ps : List ℕ) (s : Server) (h : Host)
    → s.hosts_manager.hosts_scheduled_for_deletion ≡ p ∷ ps
    → s.host_heap p ≡ some h
    → is_state h.state disconnected ≡ false
    → idle_callback env s ≡ ok tt s
unfolding idle_callback delete_front
idle_callback-waits env p ps s h a b d = ground arith
