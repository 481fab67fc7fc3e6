-- ===== src/Tests/Data.antt =====
-- The data of the runs: a package, hosts, and a server with a few objects.
use yonderboy.Prelude.{
  ℕ, ◌≡◌, refl, arith, Bool, true, false, not, ◌&&◌, ◌==◌, none, some, [], ◌∷◌, Bytes, bytes_key,
  nat_key, bytes_eq, bytes_less,
}
use yonderboy.Prelude.Text.{codes, is_space}
use yonderboy.Prelude.Map.{find}
use yonderboy.Macros.{established, running, PackageType}
use yonderboy.Package.{Package, KeyValueMap, make_package, initialize}
use yonderboy.Package.Wire.{Lacks, IsWireSafe}
use yonderboy.AbstractHost.{RendererFields, ViewerFields, Host, Role, renderer, viewer, controller}
use yonderboy.Server.{Server, Job, View, HostsManager, DisplayManager, update}

abbrev pub lacks_byte : ℕ → Bytes → Bool
lacks_byte b [] = true
lacks_byte b (c ∷ cs) = not (c == b) && lacks_byte b cs

pub lacks : (b : ℕ) (s : Bytes) → lacks_byte b s ≡ true → Lacks b s
lacks b [] h = tt
lacks b (c ∷ s) h = (ground arith, lacks b s (ground arith))

abbrev pub open_uri : KeyValueMap
open_uri = (codes "command", codes "open-uri") ∷ (codes "type", codes "command") ∷ []

pub open_uri-IsWireSafe : IsWireSafe open_uri (codes "{}")
unfolding is_space bytes_eq bytes_less
open_uri-IsWireSafe = record {
  sorted = ((refl, tt), (tt, tt));
  clean = (
    record {
      key_trimmed = (refl, refl);
      key_no_separator = lacks b'=' (codes "command") refl;
      key_no_newline = lacks b'\n' (codes "command") refl;
      key_no_brace = omega arith;
      value_trimmed = (refl, refl);
      value_no_newline = lacks b'\n' (codes "open-uri") refl;
    },
    (
      record {
        key_trimmed = (refl, refl);
        key_no_separator = lacks b'=' (codes "type") refl;
        key_no_newline = lacks b'\n' (codes "type") refl;
        key_no_brace = omega arith;
        value_trimmed = (refl, refl);
        value_no_newline = lacks b'\n' (codes "command") refl;
      },
      tt,
    ),
  );
  json_line = (lacks b'\n' (codes "{}") refl, refl, refl);
}

pub open_uri-valid : (make_package (some open_uri) (codes "{}")).valid ≡ true
unfolding make_package initialize bytes_eq find
open_uri-valid = refl

abbrev pub xembed_renderer : RendererFields
xembed_renderer = record {
  backend_name = [];
  backend_version = [];
  display_information = [];
  display_information_type = codes "xembed";
  view_to_connect_to = none;
  initial_uri = [];
}

abbrev pub a_renderer : Role
a_renderer = renderer xembed_renderer

abbrev pub one_view_viewer : ViewerFields
one_view_viewer = record {
  views = (codes "1", 30) ∷ [];
  displays_stati = false;
  displays_popups = false;
  can_have_multiple_views = true;
}

abbrev pub a_viewer : Role
a_viewer = viewer one_view_viewer

abbrev pub a_controller : Role
a_controller =
    controller
      (record { interactive = true; handles_synchronous_requests = true; displays_stati = false })

abbrev pub a_host : Role → Host
a_host role = record {
  state = established;
  id = [];
  client_name = [];
  client_version = [];
  parse_buffer = [];
  received_newline = false;
  send_buffer = [];
  next_package_id = 0;
  write_active = false;
  write_half_shut = false;
  role = role;
}

abbrev pub a_package : PackageType → KeyValueMap → Package
a_package type m = record {
  type = type;
  valid = true;
  acknowledgement_needed = true;
  id = 4;
  has_valid_id = true;
  json = [];
  key_value_map = m;
}

abbrev pub a_job : Package → Job
a_job p = record {
  base = p;
  host = 3;
  dependencies = [];
  dependent_jobs = [];
  dependencies_used = false;
}

abbrev pub a_view : View
a_view = record {
  host = 1;
  id = codes "1";
  reassignable = false;
  popup = false;
  assigned = false;
  display_information = [];
  display_information_type = codes "xembed";
}

abbrev pub a_registry : HostsManager
a_registry = record {
  hosts = [];
  main_controller_id = [];
  focused_view = none;
  hosts_scheduled_for_deletion = [];
  next_renderer_id = 0;
  next_viewer_id = 0;
  next_controller_id = 0;
  idle_active = false;
}

abbrev pub no_views : DisplayManager
no_views = record { views = []; renderers = []; renderer_by_view = []; view_by_renderer = [] }

-- The view 30 is shown by the renderer 2.
abbrev pub one_view : DisplayManager
one_view = record {
  views = ((codes "1", 1), 30) ∷ [];
  renderers = (codes "renderer0", 2) ∷ [];
  renderer_by_view = (30, 2) ∷ [];
  view_by_renderer = (2, 30) ∷ [];
}

-- A viewer 1 with the view 30, a renderer 2, a controller 3 and a job 10 of the controller.
abbrev pub a_server : DisplayManager → Package → Server
a_server d p = record {
  host_heap =
      update (update (update (λ q. none) 1 (some (a_host a_viewer))) 2 (some (a_host a_renderer))) 3
        (some (a_host a_controller));
  job_heap = update (λ q. none) 10 (some (a_job p));
  view_heap = update (λ q. none) 30 (some a_view);
  next_ref = 40;
  job_manager = record { unfinished_jobs = []; request_response_mapping = [] };
  hosts_manager = a_registry;
  display_manager = d;
  package_router = record {
    routing_table = [];
    stati_receiver = [];
    allowed_controller_commands = [];
    allowed_renderer_commands = [];
  };
  configuration = [];
  state = running;
}
