-- ===== src/RendererClient/Answers.antt =====
-- renderers/webkit-renderer/src/renderer_controller.cpp: what a renderer answers.
use yonderboy.Prelude.{
  ℕ, suc, length, Bool, true, false, Option, none, some, List, [], ◌∷◌, ◌++◌, ◌≡◌, refl, sym, ap,
  ◌∙◌, arith, Bytes, map, append_assoc, append-nil, if◌then◌else◌, inl, inr, Bool-cases, bytes_eq,
  bytes_less,
}
use mathlib.Core.List.{map-append}
use yonderboy.Prelude.Text.{codes, decimal}
use yonderboy.Prelude.Map.{find, insert, place}
use yonderboy.Macros.{
  PackageType, unknown, command, status_change, request, response, acknowledgement,
  connection_management,
}
use yonderboy.Package.{Package, get_value, value_of, make_package, initialize}
use yonderboy.PackageFactories.{acknowledge, construct_acknowledgement, construct_package}
use yonderboy.ServerConnection.{
  ServerConnection, client_send, push_package, client_callback, readable,
}
use yonderboy.ServerConnection.Queues.{handled, popped, handle_packages-keeps}
use yonderboy.RendererClient.{
  ViewCall, RendererController, handle_package, handle_typed, handle_command, handle_request,
  is_search, found_response, renderer_client,
}

-- The type of a package and the package that it answers.
abbrev pub answer_key : Package → Bytes × Bytes
answer_key p = (get_value p (codes "type"), get_value p (codes "id"))

-- The answer that is due to a package.
abbrev pub due_typed : PackageType → Package → List (Bytes × Bytes)
due_typed command p = if p.has_valid_id then (codes "ack", decimal p.id) ∷ [] else []
due_typed request p = if is_search p then (codes "response", get_value p (codes "id")) ∷ [] else []
due_typed response p = []
due_typed connection_management p = []
due_typed unknown p = []
due_typed status_change p = []
due_typed acknowledgement p = []

abbrev pub due : List Package → List (Bytes × Bytes)
due [] = []
due (p ∷ ps) = due_typed p.type p ++ due ps

abbrev pub queued : RendererController → List (Bytes × Bytes)
queued r = map answer_key r.connection.to_send_packages

acknowledgement-key :
    (id : ℕ) (error : Bytes)
    → answer_key (construct_acknowledgement id error) ≡ (codes "ack", decimal id)
unfolding construct_acknowledgement make_package initialize value_of find insert place bytes_eq
    bytes_less
acknowledgement-key id [] = refl
acknowledgement-key id (c ∷ error) = refl

response-key :
    (p : Package) (found : Bool)
    → answer_key (found_response p found) ≡ (codes "response", get_value p (codes "id"))
unfolding construct_package make_package initialize value_of find insert place bytes_eq bytes_less
response-key p true = refl
response-key p false = refl

-- One package more in the queue.
sent-queued :
    (p : Package) (c : ServerConnection)
    → map answer_key (client_send (some p) c).to_send_packages
      ≡ map answer_key c.to_send_packages ++ answer_key p ∷ []
unfolding client_send push_package
sent-queued p c = map-append answer_key c.to_send_packages (p ∷ [])

command-connection :
    (search : List ViewCall → Bool) (p : Package) (r : RendererController)
    → (handle_command search p r).1.connection ≡ r.connection
unfolding handle_command
command-connection search p r = ground arith

acknowledged-queued :
    (p : Package) (error : Bytes) (c : ServerConnection)
    → map answer_key (client_send (acknowledge p error) c).to_send_packages
      ≡ map answer_key c.to_send_packages ++ due_typed command p
unfolding acknowledge
acknowledged-queued p error c = elim (Bool-cases p.has_valid_id) [
  | inl e ↦
      rw (acknowledge, e)
        (sent-queued (construct_acknowledgement p.id error) c
          ∙ ap (λ k. map answer_key c.to_send_packages ++ k ∷ []) (acknowledgement-key p.id error))
  | inr e ↦
      rw (acknowledge, e)
        (unfold client_send push_package in sym (append-nil (map answer_key c.to_send_packages)))
]

request-queued :
    (search : List ViewCall → Bool) (p : Package) (r : RendererController)
    → queued (handle_request search p r) ≡ queued r ++ due_typed request p
unfolding handle_request
request-queued search p r = elim (Bool-cases (is_search p)) [
  | inl e ↦
      rw (handle_request, e)
        (sent-queued (found_response p _) r.connection
          ∙ ap (λ k. queued r ++ k ∷ []) (response-key p _))
  | inr e ↦ rw (handle_request, e) (sym (append-nil (queued r)))
]

typed-queued :
    (search : List ViewCall → Bool) (t : PackageType) (p : Package) (r : RendererController)
    → queued (handle_typed search t p r) ≡ queued r ++ due_typed t p
unfolding handle_typed
typed-queued search command p r =
    let (error, s) = handle_command search p r in
    acknowledged-queued p error s.connection
    ∙ ap (λ c. map answer_key c.to_send_packages ++ due_typed command p)
        (command-connection search p r)
typed-queued search request p r = request-queued search p r
typed-queued search response p r = sym (append-nil (queued r))
typed-queued search connection_management p r = sym (append-nil (queued r))
typed-queued search unknown p r = sym (append-nil (queued r))
typed-queued search status_change p r = sym (append-nil (queued r))
typed-queued search acknowledgement p r = sym (append-nil (queued r))

-- Whatever packages come, and whatever WebKit finds, the renderer queues one acknowledgement for
-- each command with an identifier and one response for each search with a text, under the
-- identifiers of the packages, in the order in which they came, and nothing else.
pub handle_package-answers :
    (search : List ViewCall → Bool) (ps : List Package) (r : RendererController)
    → queued (handled (handle_package search) ps r) ≡ queued r ++ due ps
unfolding handle_package
handle_package-answers search [] r = sym (append-nil (queued r))
handle_package-answers search (p ∷ ps) r =
    handle_package-answers search ps (handle_package search p r)
    ∙ ap (λ k. k ++ due ps) (typed-queued search p.type p r)
    ∙ append_assoc (queued r) (due_typed p.type p) (due ps)

-- Sending leaves the received packages alone.
client_send-received :
    (p : Option Package) (c : ServerConnection)
    → (client_send p c).received_packages ≡ c.received_packages
unfolding client_send push_package
client_send-received none c = refl
client_send-received (some p) c = refl

typed-received :
    (search : List ViewCall → Bool) (t : PackageType) (p : Package) (r : RendererController)
    → (handle_typed search t p r).connection.received_packages ≡ r.connection.received_packages
unfolding handle_typed handle_request
typed-received search command p r =
    let (error, s) = handle_command search p r in
    client_send-received (acknowledge p error) s.connection
    ∙ ap (λ c. c.received_packages) (command-connection search p r)
typed-received search request p r = elim (Bool-cases (is_search p)) [
  | inl e ↦ rw (handle_request, e) (client_send-received (some (found_response p _)) r.connection)
  | inr e ↦ rw (handle_request, e) refl
]
typed-received search response p r = refl
typed-received search connection_management p r = refl
typed-received search unknown p r = refl
typed-received search status_change p r = refl
typed-received search acknowledgement p r = refl

-- A message on the renderer's socket makes it handle every package that its connection has
-- received, although handling one uses the connection: the queue is empty, and what is due to
-- these packages, and nothing else, is queued to be sent, in their order; the watch stays.
pub client_callback-answers :
    (search : List ViewCall → Bool) (r : RendererController)
    → ((client_callback renderer_client (handle_package search) readable r).0 ≡ (true, false))
      × (queued (client_callback renderer_client (handle_package search) readable r).1
          ≡ queued r ++ due r.connection.received_packages)
      × ((client_callback renderer_client
            (handle_package search)
            readable
            r).1.connection.received_packages
          ≡ [])
unfolding client_callback renderer_client handle_package
client_callback-answers search r =
    let goal = queued r ++ due r.connection.received_packages in
    let (answers, empty) =
      handle_packages-keeps renderer_client (handle_package search)
        (λ ps s. queued s ++ due ps ≡ goal)
        (λ p ps s h.
          ap (λ k. k ++ due ps)
            (typed-queued search p.type p (popped renderer_client (handle_package search) ps s))
          ∙ append_assoc (queued s) (due_typed p.type p) (due ps)
          ∙ h)
        (λ p s. typed-received search p.type p s) r.connection.received_packages
        (suc (length r.connection.received_packages)) r refl (omega arith) refl in
    (refl, sym (append-nil _) ∙ answers, empty)
