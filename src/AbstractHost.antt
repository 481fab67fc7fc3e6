-- ===== src/AbstractHost.antt =====
-- daemon/src/abstract_host.cpp and abstract_host.h: one end of a connection to a client. The
-- socket is outside: what `send` and `shutdown` answer are arguments. The receiving half is in
-- Framing.
pub mod Identifiers
pub mod Writing
pub mod Sending
pub mod Delivery
use yonderboy.Prelude.{
  ℕ, ◌+◌, ◌-◌, ◌%◌, ◌^◌, Bool, true, false, not, ◌&&◌, ◌||◌, Option, none, some, List, [], ◌∷◌,
  ◌++◌, Bytes, length, take, drop, ltb, leb, ◌==◌, if◌then◌else◌,
}
use yonderboy.Prelude.Text.{codes, decimal, u64_mod, is_empty}
use yonderboy.Prelude.Map.{Map}
use yonderboy.Macros.{
  ConnectionState, connected, disconnecting, disconnected, established, is_state, PackageType,
  acknowledgement, status_change, not_type_eq, ServerComponent, renderer_host, viewer_host,
  controller_host,
}
use yonderboy.Package.{Package, serialize}

-- The members that RendererHost, ViewerHost and ControllerHost add. Views are named by references.
pub record RendererFields : Type 0 where
  pub backend_name : Bytes
  pub backend_version : Bytes
  pub display_information : Bytes
  pub display_information_type : Bytes
  pub view_to_connect_to : Option ℕ
  pub initial_uri : Bytes

pub record ViewerFields : Type 0 where
  pub views : Map Bytes ℕ
  pub displays_stati : Bool
  pub displays_popups : Bool
  pub can_have_multiple_views : Bool

pub record ControllerFields : Type 0 where
  pub interactive : Bool
  pub handles_synchronous_requests : Bool
  pub displays_stati : Bool

pub data Role : Type 0 where
  renderer : RendererFields → Role
  viewer : ViewerFields → Role
  controller : ControllerFields → Role

pub record Host : Type 0 where
  pub state : ConnectionState
  pub id : Bytes
  pub client_name : Bytes
  pub client_version : Bytes
  pub parse_buffer : Bytes
  pub received_newline : Bool
  pub send_buffer : Bytes
  pub next_package_id : ℕ
  pub write_active : Bool
  pub write_half_shut : Bool
  pub role : Role

-- The constructors, on a valid socket.
unfoldable pub new_host : Role → Host
new_host role = record {
  state = connected;
  id = [];
  client_name = [];
  client_version = [];
  parse_buffer = [];
  received_newline = false;
  send_buffer = [];
  next_package_id = 0;
  write_active = false;
  write_half_shut = false;
  role = role;
}

abbrev pub role_type : Role → ServerComponent
role_type (renderer r) = renderer_host
role_type (viewer v) = viewer_host
role_type (controller c) = controller_host

abbrev pub host_type : Host → ServerComponent
host_type h = role_type h.role

-- Both `nextPackageID` and the numbers of the peer are 64-bit unsigned.
unfoldable pub get_next_package_id : Host → Bytes × Host
get_next_package_id h =
    (decimal h.next_package_id, record h { next_package_id = (h.next_package_id + 1) % u64_mod })

unfoldable pub update_next_package_id : ℕ → Host → Host
update_next_package_id last h =
    if leb h.next_package_id last || (ltb (u64_mod - 1 - 100) h.next_package_id && ltb last 100)
    then record h { next_package_id = (last + 1) % u64_mod }
    else h

abbrev can_send : Host → Bool
can_send h = is_state h.state connected || is_state h.state established

-- The identifier line that `sendPackage` adds. Its guard compares a negation with a type.
with_identifier : Bool → Package → Bytes × Host → Bytes × Host
unfolding get_next_package_id
with_identifier with_id p (text, h) =
    let (number, h') = get_next_package_id h in
    if with_id
      && (not p.has_valid_id
          && (not_type_eq p.type acknowledgement && not_type_eq p.type status_change))
    then (text ++ (codes "id = " ++ (number ++ b'\n' ∷ [])), h')
    else (text, h)

abbrev append_text : Bytes × Host → Host
append_text (text, h) = record h {
  send_buffer = h.send_buffer ++ (text ++ b'\n' ∷ []);
  write_active = true;
}

-- `none` is the null pointer.
unfoldable pub send_package : Option Package → Bool → Host → Host
unfolding with_identifier serialize
send_package none with_id h = h
send_package (some p) with_id h =
    if can_send h && p.valid then append_text (with_identifier with_id p (serialize p, h)) else h

-- What a system call leaves in `errno`.
pub data Errno : Type 0 where
  would_block other : Errno

-- What `send` answers: the number of bytes that it took, or an error. A success leaves `errno`
-- as it was.
pub data SendAnswer : Type 0 where
  sent : ℕ → SendAnswer
  refused : Errno → SendAnswer

pub data WriteEnd : Type 0 where
  drained blocked threw unanswered : WriteEnd

-- `remaining` is `sendBufferSize`, with 0 for what is not positive.
pub record WriteState : Type 0 where
  pub buffer : Bytes
  pub remaining : ℕ
  pub on_the_wire : Bytes
  pub errno : Errno

abbrev pub send_size : ℕ
send_size = 4096

abbrev is_would_block : Errno → Bool
is_would_block would_block = true
is_would_block other = false

-- The size of the send buffer as an `int`, which wraps around: a negative one is 0.
unfoldable pub int_size : Bytes → ℕ
int_size buffer = let n = length buffer % 2 ^ 32 in if ltb n (2 ^ 31) then n else 0

-- What a round gives to `send`.
unfoldable pub piece : WriteState → Bytes
piece w = take (if ltb send_size w.remaining then send_size else w.remaining) w.buffer

-- The loop of `writeCallback`, a round for each answer of `send`.
unfoldable pub write_loop : List SendAnswer → WriteState → WriteEnd × WriteState
unfolding piece
write_loop [] w = if w.remaining == 0 then (drained, w) else (unanswered, w)
write_loop (sent n ∷ answers) w =
    let wired = record w { on_the_wire = w.on_the_wire ++ take n (piece w) } in
    let rest =
      write_loop answers (record wired { buffer = drop n w.buffer; remaining = w.remaining - n }) in
    if w.remaining == 0
    then (drained, w)
    else if is_would_block w.errno
    then (blocked, wired)
    else rest
write_loop (refused e ∷ answers) w =
    if w.remaining == 0
    then (drained, w)
    else if is_would_block e
    then (blocked, record w { errno = e })
    else (threw, record w { errno = e })

-- `shutdownSocket`; the answer says whether `shutdown` succeeded, and the result whether it threw.
unfoldable pub shutdown_socket : Bool → Host → Host × Bool
shutdown_socket true h = (record h { write_half_shut = true }, false)
shutdown_socket false h = (record h { state = connected }, true)

-- `disconnect` and `shutdownHost`
unfoldable pub disconnect : Bool → Host → Host × Bool
unfolding shutdown_socket
disconnect answer h =
    let h' = record h { state = disconnecting } in
    if is_empty h.send_buffer then shutdown_socket answer h' else (h', false)

-- What `writeCallback` does behind its loop.
finish_writing : Bool → Host → Host × Bool
unfolding shutdown_socket
finish_writing answer h =
    if is_state h.state disconnecting && is_empty h.send_buffer
    then shutdown_socket answer h
    else if is_empty h.send_buffer
    then (record h { write_active = false }, false)
    else (h, false)

pub record Written : Type 0 where
  pub host : Host
  pub wire : Bytes
  pub errno_left : Errno
  pub threw_error : Bool

-- What stands behind the loop in each case that the loop may end in.
after_loop : WriteEnd → WriteState → Bool → Host → Written
unfolding finish_writing
after_loop threw w answer h = record {
  host = h;
  wire = w.on_the_wire;
  errno_left = w.errno;
  threw_error = true;
}
after_loop unanswered w answer h = record {
  host = h;
  wire = w.on_the_wire;
  errno_left = w.errno;
  threw_error = false;
}
after_loop _ w answer h =
    let (h', failed) = finish_writing answer h in
    record { host = h'; wire = w.on_the_wire; errno_left = w.errno; threw_error = failed }

unfoldable pub write_callback : List SendAnswer → Bool → Errno → Host → Written
unfolding write_loop after_loop int_size
write_callback answers answer errno h =
    let start : WriteState = record {
      buffer = h.send_buffer;
      remaining = int_size h.send_buffer;
      on_the_wire = [];
      errno = errno;
    } in
    let (end, w) = write_loop answers start in
    after_loop end w answer (record h { send_buffer = w.buffer })
