-- ===== src/ControllerHost.antt =====
-- daemon/src/controller_host.cpp: the packages of connection management that a controller sends.
use yonderboy.Prelude.{ℕ, not, ◌&&◌, [], bytes_key, nat_key, if◌then◌else◌}
use yonderboy.Prelude.Text.{codes}
use yonderboy.Macros.{connected, is_state}
use yonderboy.Package.{Package, is_set}
use yonderboy.AbstractHost.{Role, ControllerFields, controller}
use yonderboy.Server.{M, ◌>>=◌, ◌>>◌, pure, skip, fault, load_host}
use yonderboy.Replies.{reply, set_role, set_established, add_stati_receiver, set_client, is_command}

controller_fields : Role → M ControllerFields
controller_fields (controller c) = pure c
controller_fields _ = λ s. fault

load_controller : ℕ → M ControllerFields
unfolding controller_fields
load_controller p = do h ← load_host p; controller_fields h.role

initialize_controller : ℕ → Package → M (Unit {0})
unfolding load_controller set_role set_client add_stati_receiver reply set_established
initialize_controller p message = do
  c ← load_controller p
  let stati = is_set message (codes "can-display-stati")
  set_role p (
      controller (record c {
        interactive = is_set message (codes "interactive");
        handles_synchronous_requests = is_set message (codes "can-handle-requests");
        displays_stati = stati;
      }))
  set_client p message
  if stati then add_stati_receiver p else skip
  reply p message []
  set_established p

-- `ControllerHost::handlePackage`; while it is connected only, it does not answer another package.
unfoldable pub handle_controller : ℕ → Package → M (Unit {0})
unfolding is_command initialize_controller reply
handle_controller p message = do
  h ← load_host p
  if not (is_state h.state connected)
      then reply p message (codes "invalid")
      else if is_command message (codes "initialize") && is_set message (codes "id")
      then initialize_controller p message
      else skip
