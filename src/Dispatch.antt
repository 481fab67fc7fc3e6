-- ===== src/Dispatch.antt =====
-- `processPackage`, `readCallback` and `updateNextPackageID` of daemon/src/abstract_host.cpp: from the
-- bytes of a socket to the handler or the router. What `recv` answers is an argument.
pub mod Access
use yonderboy.Prelude.{
  ℕ, Bool, true, false, not, Option, none, some, List, [], ◌∷◌, Bytes, if◌then◌else◌,
}
use yonderboy.Prelude.Text.{codes}
use yonderboy.Macros.{connection_management, is_type, established, is_state}
use yonderboy.Package.{Package, parse_package}
use yonderboy.PackageFactories.{acknowledge}
use yonderboy.Framing.{Receiver, parse_received_data}
use yonderboy.AbstractHost.{Host, host_type, update_next_package_id}
use yonderboy.Server.{Server, M, ◌>>=◌, ◌>>◌, skip, get, fault, load_host, store_host}
use yonderboy.HostLifecycle.{Environment, close_socket}
use yonderboy.Replies.{reply}
use yonderboy.ClientHosts.{handle_package}
use yonderboy.CommandTable.{is_allowed}
use yonderboy.PackageRouter

unfoldable pub update_ids : ℕ → ℕ → M (Unit {0})
unfolding update_next_package_id
update_ids p id = do h ← load_host p; store_host p (update_next_package_id id h)

-- `AbstractHost::processPackage` behind the construction of the package.
unfoldable pub process_message : Environment → ℕ → Package → M (Unit {0})
process_message env p message = do
  h ← load_host p
  s ← get
  if not message.valid
      then reply p message (codes "invalid")
      else if not (is_allowed s.package_router (host_type h) message)
      then reply p message (codes "forbidden")
      else if is_type message.type connection_management
      then (do update_ids p message.id; handle_package env p message)
      else if is_state h.state established
      then (do update_ids p message.id; PackageRouter.process_package env p message)
      else reply p message (codes "invalid")

unfoldable pub process_text : Environment → ℕ → Bytes → M (Unit {0})
unfolding process_message parse_package
process_text env p text = process_message env p (parse_package text)

-- `parseReceivedData`; `before` is the byte in front of an empty text (Framing).
parse_data : Environment → ℕ → ℕ → Bytes → M (Unit {0})
unfolding process_text parse_received_data
parse_data env before p chunk = do
  h ← load_host p
  let r =
      parse_received_data {S = M (Unit {0})} (λ text m. m >> process_text env p text) before chunk
        (record {
          parse_buffer = h.parse_buffer;
          received_newline = h.received_newline;
          processed = skip;
        })
  r.processed
  k ← load_host p
  store_host p (record k { parse_buffer = r.parse_buffer; received_newline = r.received_newline })

-- What `recv` answers; another error is thrown.
pub data RecvAnswer : Type 0 where
  received : Bytes → RecvAnswer
  closed nothing_yet failed : RecvAnswer

unfoldable pub read_callback : Environment → ℕ → ℕ → RecvAnswer → M (Unit {0})
unfolding parse_data close_socket
read_callback env before p (received chunk) = parse_data env before p chunk
read_callback env before p closed = do close_socket p; parse_data env before p []
read_callback env before p nothing_yet = parse_data env before p []
read_callback env before p failed = λ s. fault
