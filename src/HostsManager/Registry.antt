-- ===== src/HostsManager/Registry.antt =====
-- The identifiers of daemon/src/hosts_manager.cpp and the registry under them.
use yonderboy.Prelude.{
  ℕ, ◌+◌, ◌≤◌, ◌<◌, ◌≡◌, refl, sym, ap, subst, ◌∙◌, arith, false, Option, none, some, Bytes, inl,
  inr, Bool-cases, if◌then◌else◌, bytes_key, bytes_eq, bytes_eq_iff,
}
use yonderboy.Prelude.Text.{codes, decimal, decimal-injective, u64_mod}
use yonderboy.Prelude.Map.{find, insert, find-insert, find-erase}
use yonderboy.Macros.{ServerComponent, invalid_component}
use yonderboy.AbstractHost.{Role, renderer, viewer, controller, role_type}
use yonderboy.Server.{HostsManager}
use yonderboy.HostsManager.{compose_id, register_as, get_host, schedule}

abbrev pub prefix : Role → Bytes
prefix (renderer r) = codes "renderer"
prefix (viewer v) = codes "viewer"
prefix (controller c) = codes "controller"

abbrev pub counter : Role → HostsManager → ℕ
counter (renderer r) m = m.next_renderer_id
counter (viewer v) m = m.next_viewer_id
counter (controller c) m = m.next_controller_id

abbrev next_id : Role → HostsManager → Bytes
next_id role m = compose_id (prefix role) (counter role m)

-- No identifier that is still to come is taken.
abbrev pub IsFresh : HostsManager → Type 0
IsFresh m =
    (role : Role) (n : ℕ)
    → counter role m ≤ n
    → n < u64_mod
    → find (compose_id (prefix role) n) m.hosts ≡ none

register_as-id :
    (role : Role) (p : ℕ) (m : HostsManager) → (register_as role p m).0 ≡ next_id role m
unfolding register_as
register_as-id (renderer r) p m = refl
register_as-id (viewer v) p m = refl
register_as-id (controller c) p m = refl

register_as-hosts :
    (role : Role) (p : ℕ) (m : HostsManager)
    → (register_as role p m).1.hosts ≡ insert (next_id role m) (role_type role, p) m.hosts
unfolding register_as
register_as-hosts (renderer r) p m = refl
register_as-hosts (viewer v) p m = refl
register_as-hosts (controller c) p m = refl

decimals-differ : (m n : ℕ) → m < n → n < u64_mod → bytes_eq (decimal m) (decimal n) ≡ false
decimals-differ m n h l = elim (Bool-cases (bytes_eq (decimal m) (decimal n))) [
  | inr e ↦ e
  | inl e ↦
      let same = decimal-injective m n (omega arith) l ((bytes_eq_iff _ _).0 e) in
      absurd (omega arith)
]

-- A later identifier of any class is another one.
next_id-differs :
    (role other : Role) (p n : ℕ) (m : HostsManager)
    → counter role m + 1 < u64_mod
    → counter other (register_as role p m).1 ≤ n
    → n < u64_mod
    → bytes_eq (next_id role m) (compose_id (prefix other) n) ≡ false
unfolding register_as compose_id bytes_eq
next_id-differs (renderer r) (renderer q) p n m h k l =
    decimals-differ m.next_renderer_id n (omega arith) l
next_id-differs (viewer r) (viewer q) p n m h k l =
    decimals-differ m.next_viewer_id n (omega arith) l
next_id-differs (controller r) (controller q) p n m h k l =
    decimals-differ m.next_controller_id n (omega arith) l
next_id-differs (renderer r) (viewer q) p n m h k l = refl
next_id-differs (renderer r) (controller q) p n m h k l = refl
next_id-differs (viewer r) (renderer q) p n m h k l = refl
next_id-differs (viewer r) (controller q) p n m h k l = refl
next_id-differs (controller r) (renderer q) p n m h k l = refl
next_id-differs (controller r) (viewer q) p n m h k l = refl

counter-grows :
    (role other : Role) (p : ℕ) (m : HostsManager)
    → counter role m + 1 < u64_mod
    → counter other m ≤ counter other (register_as role p m).1
unfolding register_as
counter-grows (renderer r) (renderer q) p m h = ground arith
counter-grows (viewer r) (viewer q) p m h = ground arith
counter-grows (controller r) (controller q) p m h = ground arith
counter-grows (renderer r) (viewer q) p m h = ground arith
counter-grows (renderer r) (controller q) p m h = ground arith
counter-grows (viewer r) (renderer q) p m h = ground arith
counter-grows (viewer r) (controller q) p m h = ground arith
counter-grows (controller r) (renderer q) p m h = ground arith
counter-grows (controller r) (viewer q) p m h = ground arith

-- Registering a host of any class keeps it true that no identifier that is still to come, of any
-- class, is taken, as long as the counter of the class does not wrap around.
pub register_as-IsFresh :
    (role : Role) (p : ℕ) (m : HostsManager)
    → counter role m + 1 < u64_mod
    → IsFresh m
    → IsFresh (register_as role p m).1
register_as-IsFresh role p m h fresh other n k l =
    rw
      (
        register_as-hosts role p m,
        find-insert (next_id role m) (compose_id (prefix other) n) (role_type role, p) m.hosts,
        next_id-differs role other p n m h k l,
      )
      (fresh other n (omega (arith, counter-grows role other p m h)) l)

get_host-find :
    (j : Bytes) (m : HostsManager) (o : Option (ServerComponent × ℕ))
    → find j m.hosts ≡ o
    → get_host j m ≡ (elim o [ some (t, p) ↦ (t, some p) | none ↦ (invalid_component, none) ])
unfolding get_host
get_host-find j m o e =
    λ i. elim (e i) [ some (t, p) ↦ (t, some p) | none ↦ (invalid_component, none) ]

-- In a registry in which no identifier that is still to come is taken, a host that is registered
-- is found under its new identifier, with its class, and every other identifier leads where it
-- did.
pub get_host-register_as :
    (role : Role) (p : ℕ) (m : HostsManager) (j : Bytes)
    → counter role m < u64_mod
    → IsFresh m
    → get_host j (register_as role p m).1
      ≡ (if bytes_eq (register_as role p m).0 j then (role_type role, some p) else get_host j m)
get_host-register_as role p m j h fresh =
    rw
      (
        register_as-id role p m,
        get_host-find j (register_as role p m).1 _ (
            ap (find j) (register_as-hosts role p m)
            ∙ find-insert (next_id role m) j (role_type role, p) m.hosts),
      )
      (elim (Bool-cases (bytes_eq (next_id role m) j)) [
        | inr e ↦ rw e (sym (get_host-find j m _ refl))
        | inl e ↦
            rw (e, sym ((bytes_eq_iff _ _).0 e), fresh role (counter role m) (omega arith) h) refl
      ])

counter-schedule :
    (role : Role) (id : Bytes) (m : HostsManager) → counter role (schedule id m) ≡ counter role m
unfolding schedule get_host
counter-schedule (renderer r) id m = ground arith
counter-schedule (viewer v) id m = ground arith
counter-schedule (controller c) id m = ground arith

-- Scheduling a host for deletion never takes an identifier that is still to come.
pub schedule-IsFresh : (id : Bytes) (m : HostsManager) → IsFresh m → IsFresh (schedule id m)
unfolding schedule get_host
schedule-IsFresh id m fresh role n k l =
    let free = fresh role n (subst (λ c. c ≤ n) (counter-schedule role id m) k) l in
    ground (arith, find-erase id (compose_id (prefix role) n) m.hosts)
