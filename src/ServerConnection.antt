-- ===== src/ServerConnection.antt =====
-- The clients' end of a connection: shared/server_connection.cpp, shared/client_controller.cpp, and
-- what shared/abstract_host.cpp does other than the daemon's (`processPackage`, `closeSocket`). A
-- thread of its own talks to the daemon; two queues and a pair of sockets, on which a byte says that
-- there is something to fetch, lead to the thread of the client. What `read` answers is an argument.
-- The `role` and `id` of the host are not used.
pub mod Queues
pub mod Delivery
use yonderboy.Prelude.{
  ℕ, zero, suc, ◌+◌, Bool, true, false, not, ◌&&◌, ◌||◌, Option, none, some, List, [], ◌∷◌, ◌++◌,
  Bytes, length, ◌==◌, ◌≡◌, if◌then◌else◌,
}
use yonderboy.Prelude.Text.{codes}
use yonderboy.Macros.{connected, disconnecting, disconnected, is_state}
use yonderboy.Package.{Package, parse_package}
use yonderboy.PackageFactories.{acknowledge}
use yonderboy.Framing.{Receiver, parse_received_data}
use yonderboy.AbstractHost.{Host, update_next_package_id, send_package, get_next_package_id}
use yonderboy.AbstractHost
use yonderboy.Dispatch.{RecvAnswer, received, closed, nothing_yet, failed}

-- `signals` counts the messages on the way to the client, `client_signals` those from it.
pub record ServerConnection : Type 0 where
  pub host : Host
  pub received_packages : List Package
  pub to_send_packages : List Package
  pub signals : ℕ
  pub client_signals : ℕ
  pub signal_shut : Bool
  pub signal_closed : Bool

-- `ServerConnection(serverSocket, signalSocket)`, on the host that AbstractHost has made.
abbrev pub new_connection : Host → ServerConnection
new_connection host = record {
  host = host;
  received_packages = [];
  to_send_packages = [];
  signals = 0;
  client_signals = 0;
  signal_shut = false;
  signal_closed = false;
}

-- `none` is the null pointer.
unfoldable pub pop_package : ServerConnection → Option Package × ServerConnection
pop_package c = elim c.received_packages [
  | [] ↦ (none, c)
  | p ∷ ps ↦ (some p, record c { received_packages = ps })
]

unfoldable pub push_package : Option Package → ServerConnection → ServerConnection
push_package none c = c
push_package (some p) c = record c { to_send_packages = c.to_send_packages ++ p ∷ [] }

-- `ServerConnection::sendSignal`, behind the new package.
unfoldable pub handle_package : Package → ServerConnection → ServerConnection
handle_package p c = record c {
  received_packages = c.received_packages ++ p ∷ [];
  signals = c.signals + 1;
}

unfoldable pub process_text : Bytes → ServerConnection → ServerConnection
process_text text c =
    let p = parse_package text in
    if not p.valid
    then record c { host = send_package (acknowledge p (codes "invalid")) true c.host }
    else handle_package p (record c { host = update_next_package_id p.id c.host })

-- `parseReceivedData`; `before` is the byte in front of an empty text (Framing).
unfoldable pub parse_data : ℕ → Bytes → ServerConnection → ServerConnection
parse_data before chunk c =
    let r = parse_received_data process_text before chunk (record {
      parse_buffer = c.host.parse_buffer;
      received_newline = c.host.received_newline;
      processed = c;
    }) in
    let d = r.processed in
    record d {
      host = record d.host { parse_buffer = r.parse_buffer; received_newline = r.received_newline };
    }

-- `ServerConnection::socketClosed`
unfoldable pub socket_closed : ServerConnection → ServerConnection
socket_closed c = record c { signal_shut = true }

unfoldable pub close_socket : Bool → ServerConnection → ServerConnection
close_socket notify c =
    let disc = record c { host = record c.host { state = disconnected } } in
    if notify then socket_closed disc else disc

-- `readCallback`; `none` is the exception. (`RecvAnswer` is what the daemon's host gets, too.)
unfoldable pub read_callback : ℕ → RecvAnswer → ServerConnection → Option ServerConnection
read_callback before (received chunk) c = some (parse_data before chunk c)
read_callback before closed c = some (parse_data before [] (close_socket true c))
read_callback before nothing_yet c = some (parse_data before [] c)
read_callback before failed c = none

-- The destructor of AbstractHost: a connection that is open is closed, and nobody is told.
unfoldable pub destroy_host : ServerConnection → ServerConnection
destroy_host c =
    if is_state c.host.state connected || is_state c.host.state disconnecting
    then close_socket false c
    else c

unfoldable pub send_queue : List Package → Host → Host
send_queue [] h = h
send_queue (p ∷ ps) h = send_queue ps (send_package (some p) true h)

-- The part of `signalCallback` for a socket that the client has closed; `answer` is what `shutdown`
-- says. The flag is whether `shutdownSocket` throws.
unfoldable pub close_signal : Bool → ServerConnection → ServerConnection × Bool
close_signal answer c =
    if is_state c.host.state connected
    then (let (h, threw) = AbstractHost.disconnect answer c.host in
        (record c { host = h; signal_closed = not threw }, threw))
    else (record c { signal_closed = true }, false)

abbrev send_queued : ServerConnection × Bool → ServerConnection × Bool
send_queued (c, true) = (c, true)
send_queued (c, false) =
    (record c { to_send_packages = []; host = send_queue c.to_send_packages c.host }, false)

-- What `read` makes of the signal socket: the client has closed it, or there is a message.
unfoldable pub signal_callback : Bool → Bool → ServerConnection → ServerConnection × Bool
signal_callback true answer c = send_queued (close_signal answer c)
signal_callback false answer c = send_queued (c, false)

-- `ClientController::sendPackageAndDelete`
unfoldable pub client_send : Option Package → ServerConnection → ServerConnection
client_send p c =
    let pushed = push_package p c in record pushed { client_signals = pushed.client_signals + 1 }

-- `ClientController::getNextPackageID`
unfoldable pub client_next_id : ServerConnection → Bytes × ServerConnection
client_next_id c = let (id, h) = get_next_package_id c.host in (id, record c { host = h })

-- A client that has a connection: `serverConnection` of its controller.
pub record Client {ℓ} (S : Type ℓ) : Type ℓ where
  pub connection_of : S → ServerConnection
  pub with_connection : ServerConnection → S → S
  pub connection_put : (c : ServerConnection) (s : S) → connection_of (with_connection c s) ≡ c
  pub connection_same : (s : S) → with_connection (connection_of s) s ≡ s

-- `ClientController::handlePackagesFromServerConnection`: each round takes a package off the queue
-- before `handle`, the client's own `handlePackage`, which may use the connection. Where `handle`
-- leaves the queue of received packages alone, its length and one more are fuel enough.
unfoldable pub handle_packages {ℓ} : {S : Type ℓ} → Client S → (Package → S → S) → ℕ → S → S
handle_packages client handle zero s = s
handle_packages client handle (suc fuel) s =
    let (p, c) = pop_package (client.connection_of s) in
    let popped = client.with_connection c s in
    elim p [ none ↦ popped | some q ↦ handle_packages client handle fuel (handle q popped) ]

-- What came of a watch on the client's end of the socket pair.
pub data Watched : Type 0 where
  hung_up unreadable nothing_read readable else_read : Watched

-- `ClientController::signalCallback`: the flag is whether the watch stays, and the second one
-- whether `signalSocketClosed` is called.
unfoldable pub client_callback {ℓ} :
    {S : Type ℓ} → Client S → (Package → S → S) → Watched → S → (Bool × Bool) × S
client_callback client handle hung_up s = ((false, true), s)
client_callback client handle unreadable s = ((false, true), s)
client_callback client handle nothing_read s = ((false, true), s)
client_callback client handle else_read s = ((true, false), s)
client_callback client handle readable s = (
  (true, false),
  handle_packages client handle (suc (length (client.connection_of s).received_packages)) s,
)
