-- ===== src/Replies.antt =====
-- What the three `handlePackage` share: the reply to a package, and the members of a host that a
-- greeting sets (daemon/src/renderer_host.cpp, daemon/src/viewer_host.cpp,
-- daemon/src/controller_host.cpp).
use yonderboy.Prelude.{ℕ, Bool, true, Bytes, bytes_key, nat_key, bytes_eq}
use yonderboy.Prelude.Text.{codes}
use yonderboy.Prelude.Map.{insert}
use yonderboy.Macros.{established}
use yonderboy.Package.{Package, get_value}
use yonderboy.PackageFactories.{acknowledge}
use yonderboy.AbstractHost.{Role}
use yonderboy.Server.{M, ◌>>=◌, modify, load_host, store_host}
use yonderboy.Job.{send}

-- A reply to the package that is handled: an acknowledgement, if the package has an identifier.
unfoldable pub reply : ℕ → Package → Bytes → M (Unit {0})
unfolding send acknowledge
reply p message error = send p (acknowledge message error) true

unfoldable pub set_role : ℕ → Role → M (Unit {0})
set_role p role = do h ← load_host p; store_host p (record h { role = role })

unfoldable pub set_established : ℕ → M (Unit {0})
set_established p = do h ← load_host p; store_host p (record h { state = established })

unfoldable pub add_stati_receiver : ℕ → M (Unit {0})
unfolding insert
add_stati_receiver p = modify λ s. record s {
  package_router = record (s.package_router) {
    stati_receiver = insert p tt s.package_router.stati_receiver;
  };
}

unfoldable pub set_client : ℕ → Package → M (Unit {0})
set_client p message = do
  h ← load_host p
  store_host p (record h {
    client_name = get_value message (codes "client-name");
    client_version = get_value message (codes "client-version");
  })

unfoldable pub is_command : Package → Bytes → Bool
is_command message name = bytes_eq (get_value message (codes "command")) name
