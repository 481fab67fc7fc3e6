-- ===== src/Macros.antt =====
-- daemon/src/macros.h: the enumerations that the parts of the daemon share, with the numbers that
-- the compiler gives to the enumerators where the code compares them as numbers.
use yonderboy.Prelude.{ℕ, ◌^◌, ◌-◌, Bool, true, ◌==◌, ◌≡◌, ◌↔◌, arith}
use yonderboy.Prelude.Signed.{ℤ, negsuc}

pub data ConnectionState : Type 0 where
  uninitialized disconnected connecting connected established : ConnectionState
  disconnecting bound listening : ConnectionState

pub data PackageType : Type 0 where
  unknown command status_change request response acknowledgement : PackageType
  connection_management : PackageType

-- `invalid_component` is `(ServerComponent)-1`.
pub data ServerComponent : Type 0 where
  decision_maker display_manager job_manager configuration_manager : ServerComponent
  persistence_manager hosts_manager package_router server_controller : ServerComponent
  renderer_host viewer_host controller_host invalid_component : ServerComponent

-- `invalid` is -1 and `cant_decide` is -2.
pub data Decision : Type 0 where
  invalid negative positive cant_decide : Decision

pub data Entity : Type 0 where
  cookie ssl_certificate download login form_data website history_entry bookmark : Entity

pub data ServerState : Type 0 where
  server_uninitialized initializing initialized starting running shutting_down : ServerState

pub data LogLevel : Type 0 where
  debug info warning error fatal : LogLevel

pub data StorageType : Type 0 where
  invalid_storage list_storage key_value_storage table_storage : StorageType

-- `long long`
abbrev pub KeyType : Type 0
KeyType = ℤ

abbrev pub invalid_key : KeyType
invalid_key = negsuc 0

abbrev pub state_value : ConnectionState → ℕ
state_value uninitialized = 0
state_value disconnected = 1
state_value connecting = 2
state_value connected = 3
state_value established = 4
state_value disconnecting = 5
state_value bound = 6
state_value listening = 7

abbrev pub is_state : ConnectionState → ConnectionState → Bool
is_state a b = state_value a == state_value b

abbrev pub type_value : PackageType → ℕ
type_value unknown = 0
type_value command = 1
type_value status_change = 2
type_value request = 3
type_value response = 4
type_value acknowledgement = 5
type_value connection_management = 6

abbrev pub is_type : PackageType → PackageType → Bool
is_type a b = type_value a == type_value b

-- `!type == other` as the compiler reads it: the negation, 0 or 1, is compared with the number of
-- `other`.
abbrev pub not_type_eq : PackageType → PackageType → Bool
not_type_eq unknown other = 1 == type_value other
not_type_eq _ other = 0 == type_value other

abbrev pub component_value : ServerComponent → ℕ
component_value decision_maker = 0
component_value display_manager = 1
component_value job_manager = 2
component_value configuration_manager = 3
component_value persistence_manager = 4
component_value hosts_manager = 5
component_value package_router = 6
component_value server_controller = 7
component_value renderer_host = 8
component_value viewer_host = 9
component_value controller_host = 10
component_value invalid_component = 2 ^ 32 - 1

abbrev pub is_component : ServerComponent → ServerComponent → Bool
is_component a b = component_value a == component_value b

abbrev pub entity_value : Entity → ℕ
entity_value cookie = 0
entity_value ssl_certificate = 1
entity_value download = 2
entity_value login = 3
entity_value form_data = 4
entity_value website = 5
entity_value history_entry = 6
entity_value bookmark = 7

pub is_type_iff : (a b : PackageType) → (is_type a b ≡ true) ↔ (a ≡ b)
is_type_iff a b = ground arith

pub is_component_iff : (a b : ServerComponent) → (is_component a b ≡ true) ↔ (a ≡ b)
is_component_iff a b = ground arith
