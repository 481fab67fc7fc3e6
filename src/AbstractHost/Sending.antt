-- ===== src/AbstractHost/Sending.antt =====
-- `sendPackage` of daemon/src/abstract_host.cpp: what it puts in the send buffer.
use yonderboy.Prelude.{
  Bool, true, false, none, some, Option, List, [], ◌∷◌, ◌++◌, ◌≡◌, ◌⊎◌, inl, inr, refl, sym, ap,
  ◌∙◌, arith, Bytes, append_assoc, append-nil, All,
}
use yonderboy.Macros.{connected, established}
use yonderboy.Package.{Package, serialize}
use yonderboy.AbstractHost.{Host, send_package, with_identifier, can_send}

-- The text that stands for a package on the wire.
abbrev pub wire_text : Package → Bytes
wire_text p = serialize p ++ b'\n' ∷ []

abbrev pub IsOpen : Host → Type 0
IsOpen h = (h.state ≡ connected) ⊎ (h.state ≡ established)

-- An open connection appends the text of a valid package and an empty line to what it sends, and
-- no identifier is added and none is counted, with or without `withID`.
pub send_package-valid :
    (p : Package) (with_id : Bool) (h : Host)
    → IsOpen h
    → p.valid ≡ true
    → send_package (some p) with_id h
      ≡ record h { send_buffer = h.send_buffer ++ wire_text p; write_active = true }
unfolding send_package with_identifier serialize
send_package-valid p with_id h o v = ground arith

can_send-IsOpen : (h : Host) → can_send h ≡ true → IsOpen h
can_send-IsOpen h e = ground arith

-- A connection that is not open is sent nothing, and neither an invalid package nor a null
-- pointer is sent: the host does not change.
pub send_package-refused :
    (p : Option Package) (with_id : Bool) (h : Host)
    → ((¬ IsOpen h) ⊎ ((q : Package) → p ≡ some q → q.valid ≡ false))
    → send_package p with_id h ≡ h
unfolding send_package
send_package-refused none with_id h r = refl
send_package-refused (some p) with_id h (inl r) = ground (arith, can_send-IsOpen h)
send_package-refused (some p) with_id h (inr r) = ground (arith, r p refl)

-- `sendPackage` for each package in turn.
abbrev pub send_all : List Package → Host → Host
send_all [] h = h
send_all (p ∷ ps) h = send_all ps (send_package (some p) true h)

abbrev pub wire_texts : List Package → Bytes
wire_texts [] = []
wire_texts (p ∷ ps) = wire_text p ++ wire_texts ps

abbrev pub AllValid : List Package → Type 0
AllValid = All (λ p. p.valid ≡ true)

pub send_all-send_buffer :
    (ps : List Package) (h : Host)
    → IsOpen h
    → AllValid ps
    → (send_all ps h).send_buffer ≡ h.send_buffer ++ wire_texts ps
send_all-send_buffer [] h o v = sym (append-nil h.send_buffer)
send_all-send_buffer (p ∷ ps) h o v =
    let h' = record h { send_buffer = h.send_buffer ++ wire_text p; write_active = true } in
    ap (λ x. (send_all ps x).send_buffer) (send_package-valid p true h o v.0)
    ∙ send_all-send_buffer ps h' o v.1
    ∙ append_assoc h.send_buffer (wire_text p) (wire_texts ps)

-- Sending a package leaves the class of a host as it was.
pub send_package-role :
    (p : Option Package) (with_id : Bool) (h : Host) → (send_package p with_id h).role ≡ h.role
unfolding send_package with_identifier
send_package-role none with_id h = refl
send_package-role (some p) with_id h = ground arith
