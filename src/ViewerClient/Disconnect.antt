-- ===== src/ViewerClient/Disconnect.antt =====
-- daemon/src/display_manager.cpp against viewers/tabbed-gtk-viewer/src/viewer_controller.cpp: what a
-- viewer makes of the end of a connection.
use yonderboy.Prelude.{
  ℕ, ◌+◌, ◌&&◌, ltb, length, if◌then◌else◌, Bool, true, false, some, ◌≡◌, ◌≢◌, refl, arith,
  bytes_eq, bytes_less, bytes_key,
}
use yonderboy.Prelude.Text.{codes, read_u64}
use yonderboy.Prelude.Map.{find, insert, place}
use yonderboy.Package.{make_package, initialize, has_value, is_set, value_of}
use yonderboy.PackageFactories.{insert_all, acknowledge}
use yonderboy.AbstractHost.{Host, send_package}
use yonderboy.Server.{Server, View, ok}
use yonderboy.DisplayManager.{disconnect}
use yonderboy.DisplayManager.Connection.{disconnect-unlinks, nameless_disconnect}
use yonderboy.Macros.{command}
use yonderboy.ServerConnection.{client_send, push_package}
use yonderboy.ViewerClient.{ViewerController, NewTab, Progress}
use yonderboy.ViewerClient.Packages.{handle_command, handle_package, handle_typed}

if_and_false {ℓ} : {A : Type ℓ} (b : Bool) (x y : A) → (if b && false then x else y) ≡ y
if_and_false true x y = refl
if_and_false false x y = refl

nameless_unknown :
    (answer : NewTab) (v : View) (w : ViewerController)
    → handle_command answer (nameless_disconnect v) w ≡ some (codes "unknown", w)
unfolding handle_command make_package has_value is_set value_of find insert place bytes_eq
    bytes_less insert_all
nameless_unknown answer v w = if_and_false (ltb 0 (length v.id)) _ _

nameless_type : (v : View) → (nameless_disconnect v).type ≡ command
unfolding make_package initialize value_of find insert place bytes_eq bytes_less insert_all
nameless_type v = refl

nameless_id : (v : View) → (nameless_disconnect v).has_valid_id ≡ false
unfolding make_package initialize value_of find insert place bytes_eq bytes_less insert_all read_u64
nameless_id v = refl

-- The viewer, when its thread has told the connection's thread that there may be something to send.
abbrev pub signalled : ViewerController → ViewerController
signalled w = record w {
  connection = record w.connection { client_signals = w.connection.client_signals + 1 };
}

nameless_handled :
    (is_partial : Progress → Bool) (answer : NewTab) (v : View) (w : ViewerController)
    → handle_package is_partial answer (nameless_disconnect v) w ≡ some (signalled w)
unfolding handle_package handle_typed acknowledge client_send push_package
nameless_handled is_partial answer v w =
    rw (nameless_type v, nameless_unknown answer v w, nameless_id v) refl

-- When the daemon disconnects a view of one host from a renderer, it sends the viewer a package
-- that the viewer of the repository does not know: handleCommand gives the error `unknown`, but
-- nothing is answered, since the package has no identifier. The viewer only signals the thread of
-- its connection; it takes the plug off no socket and keeps the renderer in its table.
pub disconnect-unknown :
    (view r : ℕ) (s : Server) (v : View) (h k : Host) (is_partial : Progress → Bool)
    (answer : NewTab) (w : ViewerController)
    → s.view_heap view ≡ some v
    → s.host_heap v.host ≡ some h
    → s.host_heap r ≡ some k
    → v.host ≢ r
    → (t : Server) × (disconnect view r s ≡ ok tt t)
      × (t.host_heap v.host ≡ some (send_package (some (nameless_disconnect v)) true h))
      × (handle_command answer (nameless_disconnect v) w ≡ some (codes "unknown", w))
      × (handle_package is_partial answer (nameless_disconnect v) w ≡ some (signalled w))
disconnect-unknown view r s v h k is_partial answer w a b c d = (
  _,
  disconnect-unlinks view r s v h k a b c d,
  ground arith,
  nameless_unknown answer v w,
  nameless_handled is_partial answer v w,
)
