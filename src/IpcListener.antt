-- ===== src/IpcListener.antt =====
-- daemon/src/ipc_listener.cpp, and the callbacks of controller_listener.cpp and viewer_listener.cpp:
-- the sockets on which the daemon takes connections. What the system calls answer is an argument, and
-- the descriptors that are open are a state of their own. An exception is `none`.
pub mod Leaks
use yonderboy.Prelude.{
  ℕ, ◌<◌, Bool, true, false, not, Option, none, some, List, [], ◌∷◌, Bytes, length, ltb, ◌==◌,
  if◌then◌else◌,
}
use yonderboy.Prelude.Signed.{ℤ, pos, negsuc}
use yonderboy.Macros.{ConnectionState, bound, listening, disconnected}
use yonderboy.AbstractHost.{Role}
use yonderboy.Server.{M, ◌>>=◌, ◌>>◌, skip}
use yonderboy.HostLifecycle.{accept_as}

-- The descriptors that are open, and those among them that do not block.
pub record Descriptors : Type 0 where
  pub in_use : List ℕ
  pub nonblocking : List ℕ

abbrev pub without : ℕ → List ℕ → List ℕ
without fd [] = []
without fd (d ∷ ds) = if d == fd then without fd ds else d ∷ without fd ds

abbrev pub opened : ℕ → Descriptors → Descriptors
opened fd k = record k { in_use = fd ∷ k.in_use }

abbrev pub closed : ℕ → Descriptors → Descriptors
closed fd k = record { in_use = without fd k.in_use; nonblocking = without fd k.nonblocking }

pub record IpcListener : Type 0 where
  pub ipc_socket : ℕ
  pub state : ConnectionState
  pub socket_path : Bytes
  pub watching : Bool

-- The flags are got (`none` is a failure) and, unless the descriptor does not block already, set. A
-- failure closes the descriptor. The flag is whether it succeeds.
unfoldable pub make_nonblocking : Option Bool → Bool → ℕ → Descriptors → Bool × Descriptors
make_nonblocking none set fd k = (false, closed fd k)
make_nonblocking (some true) set fd k = (true, record k { nonblocking = fd ∷ k.nonblocking })
make_nonblocking (some false) true fd k = (true, record k { nonblocking = fd ∷ k.nonblocking })
make_nonblocking (some false) false fd k = (false, closed fd k)

-- What the system answers to the constructor. A failure to bind leaves the socket open.
pub record SocketAnswers : Type 0 where
  pub socket : Option ℕ
  pub flags : Option Bool
  pub set_flags : Bool
  pub binds : Bool

abbrev bind_socket : Bool → Bytes → ℕ → Bool × Descriptors → Option IpcListener × Descriptors
bind_socket binds path fd (false, k) = (none, k)
bind_socket false path fd (true, k) = (none, k)
bind_socket true path fd (true, k) =
    (some (record { ipc_socket = fd; state = bound; socket_path = path; watching = false }), k)

abbrev open_socket :
    SocketAnswers → Bytes → Option ℕ → Descriptors → Option IpcListener × Descriptors
open_socket answers path none k = (none, k)
open_socket answers path (some fd) k =
    bind_socket answers.binds path fd
      (make_nonblocking answers.flags answers.set_flags fd (opened fd k))

-- `IPCListener(path)`
unfoldable pub new_listener : SocketAnswers → Bytes → Descriptors → Option IpcListener × Descriptors
new_listener answers path k =
    if ltb 107 (length path) then (none, k) else open_socket answers path answers.socket k

-- `listens` is whether `listen` succeeds.
unfoldable pub start_listening : Bool → ℤ → IpcListener → Option IpcListener
start_listening listens (negsuc backlog) l = none
start_listening false (pos backlog) l = none
start_listening true (pos backlog) l = some (record l { watching = true; state = listening })

-- `running` is whether the event loop runs.
unfoldable pub close_listener : Bool → IpcListener → Descriptors → IpcListener × Descriptors
close_listener running l k = (
  record l { watching = (if running then false else l.watching); state = disconnected },
  closed l.ipc_socket k,
)

-- What `accept` answers.
pub data Accepted : Type 0 where
  connection : ℕ → Accepted
  would_block accept_failed : Accepted

abbrev returned : ℕ → Bool × Descriptors → Option ℕ × Descriptors
returned fd (true, k) = (some fd, k)
returned fd (false, k) = (none, k)

-- With nothing to accept, the flags of descriptor -1 are asked for, which fails.
unfoldable pub accept_client : Accepted → Option Bool → Bool → Descriptors → Option ℕ × Descriptors
accept_client accept_failed flags set k = (none, k)
accept_client would_block flags set k = (none, k)
accept_client (connection fd) flags set k =
    returned fd (make_nonblocking flags set fd (opened fd k))

-- The callbacks of the two listeners, by the role of the host; an exception is logged.
unfoldable pub accept_callback :
    Role → Accepted → Option Bool → Bool → Descriptors → M (Unit {0}) × Descriptors
accept_callback role accepted flags set k =
    let (client, d) = accept_client accepted flags set k in
    (elim client [ none ↦ skip | some fd ↦ do _ ← accept_as role; skip ], d)
