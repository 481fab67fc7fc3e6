-- ===== src/Server.antt =====
-- The objects of the daemon and the pointers between them (daemon/src/server_controller.h and the
-- headers of the managers that it owns). Hosts, jobs and views live on a heap and are named by
-- references; a null pointer is `none`. Packages are values: who deletes them is not modelled.
use yonderboy.Prelude.{ℕ, ◌+◌, Bool, Option, none, some, List, Bytes, ◌==◌, if◌then◌else◌}
use yonderboy.Prelude.Map.{Map}
use yonderboy.Macros.{ServerComponent, ServerState}
use yonderboy.Package.{Package}
use yonderboy.AbstractHost.{Host}

abbrev pub Heap : Type 0 → Type 0
Heap A = ℕ → Option A

abbrev pub update : {A : Type 0} → Heap A → ℕ → Option A → Heap A
update heap p v q = if q == p then v else heap q

-- daemon/src/job.h
pub record Job : Type 0 where
  pub base : Package
  pub host : ℕ
  pub dependencies : List ℕ
  pub dependent_jobs : List ℕ
  pub dependencies_used : Bool

-- daemon/src/view.h
pub record View : Type 0 where
  pub host : ℕ
  pub id : Bytes
  pub reassignable : Bool
  pub popup : Bool
  pub assigned : Bool
  pub display_information : Bytes
  pub display_information_type : Bytes

-- daemon/src/job_manager.h
pub record JobManager : Type 0 where
  pub unfinished_jobs : Map (ℕ × ℕ) ℕ
  pub request_response_mapping : Map (ℕ × ℕ) (ℕ × ℕ)

-- daemon/src/hosts_manager.h
pub record HostsManager : Type 0 where
  pub hosts : Map Bytes (ServerComponent × ℕ)
  pub main_controller_id : Bytes
  pub focused_view : Option ℕ
  pub hosts_scheduled_for_deletion : List ℕ
  pub next_renderer_id : ℕ
  pub next_viewer_id : ℕ
  pub next_controller_id : ℕ
  pub idle_active : Bool

-- daemon/src/display_manager.h
pub record DisplayManager : Type 0 where
  pub views : Map (Bytes × ℕ) ℕ
  pub renderers : Map Bytes ℕ
  pub renderer_by_view : Map ℕ ℕ
  pub view_by_renderer : Map ℕ ℕ

-- daemon/src/package_router.h; the sets are maps to nothing.
pub record PackageRouter : Type 0 where
  pub routing_table : Map Bytes ServerComponent
  pub stati_receiver : Map ℕ (Unit {0})
  pub allowed_controller_commands : Map Bytes (Unit {0})
  pub allowed_renderer_commands : Map Bytes (Unit {0})

pub record Server : Type 0 where
  pub host_heap : Heap Host
  pub job_heap : Heap Job
  pub view_heap : Heap View
  pub next_ref : ℕ
  pub job_manager : JobManager
  pub hosts_manager : HostsManager
  pub display_manager : DisplayManager
  pub package_router : PackageRouter
  pub configuration : Map (Bytes × Bytes) Bytes
  pub state : ServerState

-- `fault` is the use of a null or dangling pointer, or an exception that nothing catches.
pub data Outcome (A : Type 0) : Type 0 where
  ok : A → Server → Outcome A
  fault : Outcome A
  out_of_fuel : Outcome A

abbrev pub M : Type 0 → Type 0
M A = Server → Outcome A

infixl 5 ◌>>=◌ ◌>>◌
abbrev pub ◌>>=◌ : {A B : Type 0} → M A → (A → M B) → M B
◌>>=◌ m f s = elim (m s) [ ok a s' ↦ f a s' | fault ↦ fault | out_of_fuel ↦ out_of_fuel ]

abbrev pub ◌>>◌ : {B : Type 0} → M (Unit {0}) → M B → M B
m >> k = m >>= λ _. k

abbrev pub pure : {A : Type 0} → A → M A
pure a s = ok a s

abbrev pub skip : M (Unit {0})
skip = pure tt

abbrev pub get : M Server
get s = ok s s

abbrev pub modify : (Server → Server) → M (Unit {0})
modify f s = ok tt (f s)

abbrev pub or_fault : {A : Type 0} → Option A → M A
or_fault none s = fault
or_fault (some a) s = ok a s

abbrev pub load_host : ℕ → M Host
load_host p s = or_fault (s.host_heap p) s

abbrev pub load_job : ℕ → M Job
load_job p s = or_fault (s.job_heap p) s

abbrev pub load_view : ℕ → M View
load_view p s = or_fault (s.view_heap p) s

abbrev pub store_host : ℕ → Host → M (Unit {0})
store_host p h = modify λ s. record s { host_heap = update s.host_heap p (some h) }

abbrev pub store_job : ℕ → Job → M (Unit {0})
store_job p j = modify λ s. record s { job_heap = update s.job_heap p (some j) }

abbrev pub store_view : ℕ → View → M (Unit {0})
store_view p v = modify λ s. record s { view_heap = update s.view_heap p (some v) }

abbrev pub new_host_ref : Host → M ℕ
new_host_ref h s =
    ok s.next_ref
      (record s { host_heap = update s.host_heap s.next_ref (some h); next_ref = s.next_ref + 1 })

abbrev pub new_job_ref : Job → M ℕ
new_job_ref j s =
    ok s.next_ref
      (record s { job_heap = update s.job_heap s.next_ref (some j); next_ref = s.next_ref + 1 })

abbrev pub new_view_ref : View → M ℕ
new_view_ref v s =
    ok s.next_ref
      (record s { view_heap = update s.view_heap s.next_ref (some v); next_ref = s.next_ref + 1 })

-- `delete`: a deleted object may not be used again.
abbrev pub free_job : ℕ → M (Unit {0})
free_job p = do _ ← load_job p; modify λ s. record s { job_heap = update s.job_heap p none }

abbrev pub free_host : ℕ → M (Unit {0})
free_host p = do _ ← load_host p; modify λ s. record s { host_heap = update s.host_heap p none }

abbrev pub free_view : ℕ → M (Unit {0})
free_view p = do _ ← load_view p; modify λ s. record s { view_heap = update s.view_heap p none }

-- A host behind a run that has not crashed.
abbrev pub host_after : ℕ → Outcome (Unit {0}) → Option Host
host_after p (ok u s) = s.host_heap p
host_after p _ = none
