-- ===== src/RendererClient.antt =====
-- renderers/webkit-renderer/src/renderer_controller.cpp: the process that shows a page. What it tells
-- WebKit is a list of calls, and what WebKit answers is an argument; `lastProgress` stands beside the
-- rest, since its numbers are WebKit's.
pub mod Answers
use yonderboy.Prelude.{
  ℕ, Bool, true, false, not, ◌&&◌, ◌||◌, Option, none, some, List, [], ◌∷◌, ◌++◌, Bytes, bytes_eq,
  if◌then◌else◌, ◌≡◌, refl,
}
use yonderboy.Prelude.Text.{codes, decimal}
use yonderboy.Macros.{
  PackageType, unknown, command, status_change, request, response, acknowledgement,
  connection_management,
}
use yonderboy.Package.{Package, get_value, has_value, is_set}
use yonderboy.PackageFactories.{acknowledge, construct_package}
use yonderboy.ServerConnection.{ServerConnection, Client, client_send, client_next_id}

-- What the web view is told.
pub data ViewCall : Type 0 where
  load_uri : Bytes → ViewCall
  reload reload_bypass_cache go_back go_forward : ViewCall
  search_text : (text : Bytes) (case_sensitive forward wrap : Bool) → ViewCall

-- `quitting` is whether the connection is closed and the main loop left.
pub record RendererController : Type 0 where
  pub connection : ServerConnection
  pub calls : List ViewCall
  pub quitting : Bool

abbrev pub sent_by : Package → RendererController → RendererController
sent_by p r = record r { connection = client_send (some p) r.connection }

-- The names and versions come from the build; `plug` is the window of the plug.
unfoldable pub new_renderer :
    Bytes → Bytes → Bytes → Bytes → ℕ → ServerConnection → RendererController
new_renderer name version backend backend_version plug c =
    let (id, d) = client_next_id c in
    sent_by
      (construct_package (codes "connection-management") (
        (codes "id", id)
        ∷ (codes "command", codes "initialize")
        ∷ (codes "client-name", name)
        ∷ (codes "client-version", version)
        ∷ (codes "backend-name", backend)
        ∷ (codes "backend-version", backend_version)
        ∷ (codes "display-information-type", codes "XEMBED")
        ∷ (codes "display-information", decimal plug)
        ∷ []))
      (record { connection = d; calls = []; quitting = false })

abbrev told : ViewCall → RendererController → RendererController
told call r = record r { calls = r.calls ++ call ∷ [] }

abbrev pub search_call : Package → ViewCall
search_call p =
    search_text (get_value p (codes "text")) (is_set p (codes "case-sensitive"))
      (not (is_set p (codes "backwards"))) (is_set p (codes "wrap-around"))

-- What `handleCommand` returns, with the new state. `search` is whether the search that is the last
-- of the calls finds its text.
unfoldable pub handle_command :
    (List ViewCall → Bool) → Package → RendererController → Bytes × RendererController
handle_command search p r =
    let name = get_value p (codes "command") in
    let searched = told (search_call p) r in
    if bytes_eq name (codes "open-uri") && has_value p (codes "uri")
    then ([], told (load_uri (get_value p (codes "uri"))) r)
    else if bytes_eq name (codes "reload-page")
    then ([], told (if is_set p (codes "bypass-cache") then reload_bypass_cache else reload) r)
    else if bytes_eq name (codes "go-back")
    then ([], told go_back r)
    else if bytes_eq name (codes "go-forward")
    then ([], told go_forward r)
    else if bytes_eq name (codes "search-in-page") && has_value p (codes "text")
    then ((if search searched.calls then [] else codes "failed"), searched)
    else (codes "invalid", r)

-- The two responses to a search.
abbrev found_response : Package → Bool → Package
found_response p true =
    construct_package (codes "response")
      ((codes "id", get_value p (codes "id")) ∷ (codes "text-found", []) ∷ [])
found_response p false =
    construct_package (codes "response") ((codes "id", get_value p (codes "id")) ∷ [])

abbrev pub is_search : Package → Bool
is_search p =
    bytes_eq (get_value p (codes "request-type")) (codes "search-in-page")
    && has_value p (codes "text")

unfoldable pub handle_request :
    (List ViewCall → Bool) → Package → RendererController → RendererController
handle_request search p r =
    let searched = told (search_call p) r in
    if is_search p then sent_by (found_response p (search searched.calls)) searched else r

abbrev answered : Package → Bytes × RendererController → RendererController
answered p (error, r) = record r { connection = client_send (acknowledge p error) r.connection }

-- The switch of `handlePackage`.
unfoldable pub handle_typed :
    (List ViewCall → Bool) → PackageType → Package → RendererController → RendererController
handle_typed search command p r = answered p (handle_command search p r)
handle_typed search request p r = handle_request search p r
handle_typed search response p r = r
handle_typed search connection_management p r = r
handle_typed search unknown p r = r
handle_typed search status_change p r = r
handle_typed search acknowledgement p r = r

unfoldable pub handle_package :
    (List ViewCall → Bool) → Package → RendererController → RendererController
handle_package search p r = handle_typed search p.type p r

unfoldable pub signal_socket_closed : RendererController → RendererController
signal_socket_closed r = record r { quitting = true }

-- A null pointer among the arguments ends them.
unfoldable pub until_null : List (Bytes × Option Bytes) → List (Bytes × Bytes)
until_null [] = []
until_null ((k, none) ∷ r) = []
until_null ((k, some v) ∷ r) = (k, v) ∷ until_null r

pub data LoadStatus : Type 0 where
  committed finished failed else_loading : LoadStatus

-- With another status the pointer to the package is not set, and it is used: `none`.
unfoldable pub load_status_callback :
    LoadStatus → Option Bytes → Option Bytes → RendererController → Option RendererController
load_status_callback committed uri title r = some (
    sent_by
      (construct_package (codes "status-change")
        (until_null ((codes "status", some (codes "load-started")) ∷ (codes "uri", uri) ∷ [])))
      r)
load_status_callback finished uri title r = some (
    sent_by
      (construct_package (codes "status-change") (
        until_null (
          (codes "status", some (codes "load-finished"))
          ∷ (codes "uri", uri)
          ∷ (codes "title", title)
          ∷ [])))
      r)
load_status_callback failed uri title r = some (
    sent_by (construct_package (codes "status-change") ((codes "status", codes "load-failed") ∷ []))
      r)
load_status_callback else_loading uri title r = none

-- `below` is `<`, and `jumps` is whether the first number is at least a tenth above the second.
unfoldable pub progress_callback {ℓ} :
    {P : Type ℓ}
    → (P → P → Bool)
    → (P → P → Bool)
    → (P → Bytes)
    → P
    → P × RendererController
    → P × RendererController
progress_callback below jumps printed progress (last, r) =
    if below progress last || jumps progress last
    then (
      progress,
      sent_by
          (construct_package (codes "status-change") (
            (codes "status", codes "progress-changed") ∷ (codes "progress", printed progress) ∷ []))
          r,
    )
    else (last, r)

abbrev hovering_arguments : Option Bytes → Option Bytes → List (Bytes × Bytes)
hovering_arguments title none = (codes "status", codes "not-hovering-over-link") ∷ []
hovering_arguments none (some uri) =
    (codes "status", codes "hovering-over-link") ∷ (codes "uri", uri) ∷ []
hovering_arguments (some title) (some uri) =
    (codes "status", codes "hovering-over-link") ∷ (codes "uri", uri) ∷ (codes "title", title) ∷ []

unfoldable pub hovering_link_callback :
    Option Bytes → Option Bytes → RendererController → RendererController
hovering_link_callback title uri r =
    sent_by (construct_package (codes "status-change") (hovering_arguments title uri)) r

pub data Button : Type 0 where
  first_button second_button else_button : Button

abbrev opens_view : Button → Bool → Bool
opens_view second_button control = true
opens_view first_button control = control
opens_view else_button control = false

-- `clicked` is whether a link was clicked; the flag is whether the navigation is ignored.
unfoldable pub navigation_callback :
    Bool → Button → Bool → Bytes → RendererController → Bool × RendererController
navigation_callback clicked button control uri r =
    let (id, c) = client_next_id r.connection in
    if not clicked
    then (false, r)
    else if opens_view button control
    then (
      true,
      sent_by
          (construct_package (codes "connection-management") (
            (codes "command", codes "new-renderer-requested")
            ∷ (codes "id", id)
            ∷ (codes "uri", uri)
            ∷ []))
          (record r { connection = c }),
    )
    else (false, r)

unfoldable pub renderer_client : Client RendererController
renderer_client = record {
  connection_of = λ r. r.connection;
  with_connection = λ c r. record r { connection = c };
  connection_put = λ c r. refl;
  connection_same = λ r. refl;
}
