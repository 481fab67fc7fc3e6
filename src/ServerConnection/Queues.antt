-- ===== src/ServerConnection/Queues.antt =====
-- shared/client_controller.cpp and shared/server_connection.cpp: the queues between the two threads.
use yonderboy.Prelude.{
  ℕ, zero, suc, ◌<◌, Bool, true, false, none, some, List, [], ◌∷◌, ◌++◌, ◌≡◌, refl, sym, ap, ◌∙◌,
  arith, length, append-nil, append_assoc, subst,
}
use yonderboy.Package.{Package}
use yonderboy.AbstractHost.{Host}
use yonderboy.AbstractHost.Sending.{IsOpen, AllValid, wire_text, wire_texts, send_package-valid}
use yonderboy.ServerConnection.{
  ServerConnection, pop_package, push_package, send_queue, signal_callback, client_send, Client,
  handle_packages,
}

abbrev pub handled {ℓ} : {S : Type ℓ} → (Package → S → S) → List Package → S → S
handled handle [] s = s
handled handle (p ∷ ps) s = handled handle ps (handle p s)

pop_package-rest :
    (p : Package) (ps : List Package) (c : ServerConnection)
    → c.received_packages ≡ p ∷ ps
    → pop_package c ≡ (some p, record c { received_packages = ps })
unfolding pop_package
pop_package-rest p ps c e = rw (pop_package, e) refl

pop_package-none : (c : ServerConnection) → c.received_packages ≡ [] → pop_package c ≡ (none, c)
unfolding pop_package
pop_package-none c e = ground (arith, e)

module _ {ℓ} {S : Type ℓ} (client : Client S) (handle : Package → S → S) where
  -- The state in which a package is handled: it is off the queue.
  abbrev pub popped : List Package → S → S
  popped ps s =
      client.with_connection (record (client.connection_of s) { received_packages = ps }) s

  handle_packages-none :
      (fuel : ℕ) (s : S)
      → (client.connection_of s).received_packages ≡ []
      → handle_packages client handle (suc fuel) s ≡ s
  unfolding handle_packages
  handle_packages-none fuel s e =
      let q = pop_package-none (client.connection_of s) e in
      rw (handle_packages, ap (λ x. x.0) q, ap (λ x. x.1) q) (client.connection_same s)

  handle_packages-some :
      (p : Package) (ps : List Package) (fuel : ℕ) (s : S)
      → (client.connection_of s).received_packages ≡ p ∷ ps
      → handle_packages client handle (suc fuel) s
        ≡ handle_packages client handle fuel (handle p (popped ps s))
  unfolding handle_packages
  handle_packages-some p ps fuel s e =
      let q = pop_package-rest p ps (client.connection_of s) e in
      rw (handle_packages, ap (λ x. x.0) q, ap (λ x. x.1) q) refl

  -- A handler that leaves the received packages alone and keeps `I`, with the packages to come, is
  -- called for every package, and leaves the queue empty.
  pub handle_packages-keeps {κ} :
      (I : List Package → S → Type κ)
      → ((p : Package) (ps : List Package) (s : S) → I (p ∷ ps) s → I ps (handle p (popped ps s)))
      → ((p : Package) (s : S)
          → (client.connection_of (handle p s)).received_packages
            ≡ (client.connection_of s).received_packages)
      → (ps : List Package) (fuel : ℕ) (s : S) → (client.connection_of s).received_packages ≡ ps
      → length ps < fuel
      → I ps s
      → I [] (handle_packages client handle fuel s)
        × ((client.connection_of (handle_packages client handle fuel s)).received_packages ≡ [])
  handle_packages-keeps I step alone ps zero s e l i = absurd (omega arith)
  handle_packages-keeps I step alone [] (suc fuel) s e l i =
      subst (λ x. I [] x × ((client.connection_of x).received_packages ≡ []))
        (sym (handle_packages-none fuel s e)) (i, e)
  handle_packages-keeps I step alone (p ∷ ps) (suc fuel) s e l i =
      let rest = record (client.connection_of s) { received_packages = ps } in
      subst (λ x. I [] x × ((client.connection_of x).received_packages ≡ []))
        (sym (handle_packages-some p ps fuel s e))
        (handle_packages-keeps I step alone ps fuel (handle p (popped ps s))
          (alone p (popped ps s) ∙ ap (λ c. c.received_packages) (client.connection_put rest s))
          (omega arith) (step p ps s i))

-- What the client sends, one package after the other.
abbrev pub client_send_all : List Package → ServerConnection → ServerConnection
client_send_all [] c = c
client_send_all (p ∷ ps) c = client_send_all ps (client_send (some p) c)

client_send_all-queue :
    (ps : List Package) (c : ServerConnection)
    → ((client_send_all ps c).to_send_packages ≡ c.to_send_packages ++ ps)
      × ((client_send_all ps c).host ≡ c.host)
unfolding client_send push_package
client_send_all-queue [] c = (sym (append-nil c.to_send_packages), refl)
client_send_all-queue (p ∷ ps) c =
    let (q, h) = client_send_all-queue ps (client_send (some p) c) in
    (q ∙ append_assoc c.to_send_packages (p ∷ []) ps, h)

send_queue-send_buffer :
    (ps : List Package) (h : Host)
    → IsOpen h
    → AllValid ps
    → (send_queue ps h).send_buffer ≡ h.send_buffer ++ wire_texts ps
unfolding send_queue
send_queue-send_buffer [] h o v = sym (append-nil h.send_buffer)
send_queue-send_buffer (p ∷ ps) h o v =
    let h' = record h { send_buffer = h.send_buffer ++ wire_text p; write_active = true } in
    ap (λ x. (send_queue ps x).send_buffer) (send_package-valid p true h o v.0)
    ∙ send_queue-send_buffer ps h' o v.1
    ∙ append_assoc h.send_buffer (wire_text p) (wire_texts ps)

-- However many packages a client sends before the connection's thread wakes up, a message on the
-- socket makes an open connection append the texts of those that waited before and then of these,
-- in the order in which they were sent, each with its empty line, to its send buffer, where all
-- of them are valid; the queue is empty, and nothing is thrown.
pub signal_callback-sends :
    (ps : List Package) (answer : Bool) (c : ServerConnection)
    → IsOpen c.host
    → AllValid (c.to_send_packages ++ ps)
    → ((signal_callback false answer (client_send_all ps c)).0.host.send_buffer
        ≡ c.host.send_buffer ++ wire_texts (c.to_send_packages ++ ps))
      × ((signal_callback false answer (client_send_all ps c)).0.to_send_packages ≡ [])
      × ((signal_callback false answer (client_send_all ps c)).1 ≡ false)
unfolding signal_callback
signal_callback-sends ps answer c o v =
    let (q, h) = client_send_all-queue ps c in
    let sent : send_queue (client_send_all ps c).to_send_packages (client_send_all ps c).host
        ≡ send_queue (c.to_send_packages ++ ps) c.host =
      rw (q, h) refl in
    (
      ap (λ x. x.send_buffer) sent ∙ send_queue-send_buffer (c.to_send_packages ++ ps) c.host o v,
      refl,
      refl,
    )
