-- ===== src/ServerConnection/Delivery.antt =====
-- shared/abstract_host.cpp and shared/server_connection.cpp, against daemon/src/abstract_host.cpp:
-- what the daemon sends comes out of a client's queue.
use yonderboy.Prelude.{
  ℕ, true, some, List, [], ◌∷◌, ◌++◌, ◌≡◌, ◌≢◌, refl, sym, ap, ◌∙◌, Bytes, All, map, append_assoc,
  append-nil,
}
use yonderboy.Package.{Package, KeyValueMap, serialize, parse_package, make_package}
use yonderboy.Package.Wire.{parse_package-serialize}
use yonderboy.Package.Lines.{serialize-HasLines}
use yonderboy.Framing.Scan.{scan, scan-append, IsPiece}
use yonderboy.Framing.Delivery.{idle, scan_package_text, receive_all, receive_all-scan, joined}
use yonderboy.AbstractHost.{Host}
use yonderboy.AbstractHost.Sending.{wire_text, wire_texts, send_all, send_all-send_buffer, IsOpen}
use yonderboy.AbstractHost.Delivery.{IsSendable, package_of, all_valid}
use yonderboy.AbstractHost.{update_next_package_id}
use yonderboy.ServerConnection.{ServerConnection, process_text, handle_package}

-- A connection that takes a valid package.
abbrev pub taken : Package → ServerConnection → ServerConnection
taken p c = handle_package p (record c { host = update_next_package_id p.id c.host })

abbrev pub taken_all : List Package → ServerConnection → ServerConnection
taken_all [] c = c
taken_all (p ∷ ps) c = taken_all ps (taken p c)

process_valid :
    (text : Bytes) (p : Package) (c : ServerConnection)
    → parse_package text ≡ p
    → p.valid ≡ true
    → process_text text c ≡ taken p c
unfolding process_text
process_valid text p c e v = rw (process_text, e, v) refl

scan-taken_all :
    (es : List (KeyValueMap × Bytes)) (c : ServerConnection)
    → All IsSendable es
    → scan process_text (wire_texts (map package_of es)) (idle c)
      ≡ idle (taken_all (map package_of es) c)
scan-taken_all [] c h = unfold scan in refl
scan-taken_all ((m, json) ∷ es) c h =
    let p = make_package (some m) json in
    let rest = wire_texts (map package_of es) in
    let safe = h.0.wire_safe in
    scan-append process_text (wire_text p) rest (idle c)
    ∙ ap (scan process_text rest) (
        scan_package_text process_text (serialize p) c
          (serialize-HasLines m json h.0.has_entry safe))
    ∙ ap (λ d. scan process_text rest (idle d))
        (process_valid (serialize p) p c (parse_package-serialize m json safe) h.0.is_valid)
    ∙ scan-taken_all es (taken p c) h.1

taken_all-received :
    (ps : List Package) (c : ServerConnection)
    → (taken_all ps c).received_packages ≡ c.received_packages ++ ps
unfolding handle_package
taken_all-received [] c = sym (append-nil c.received_packages)
taken_all-received (p ∷ ps) c =
    taken_all-received ps (taken p c) ∙ append_assoc c.received_packages (p ∷ []) ps

-- What the daemon sends to a client, of packages that can stand on lines and are valid, from an
-- empty send buffer of an open connection, and however it is cut on its way into pieces of at
-- most 4096 bytes with no zero byte, is in the queue of the client's connection when it has been
-- received, in order and unchanged, behind what was there, where the byte in front of the
-- characters of an empty text is no newline.
pub receive_all-received :
    (es : List (KeyValueMap × Bytes)) (h : Host) (before : ℕ) (pieces : List Bytes)
    (c : ServerConnection)
    → All IsSendable es
    → IsOpen h
    → h.send_buffer ≡ []
    → before ≢ b'\n'
    → All IsPiece pieces
    → joined pieces ≡ (send_all (map package_of es) h).send_buffer
    → (receive_all process_text before pieces (idle c) ≡ idle (taken_all (map package_of es) c))
      × ((taken_all (map package_of es) c).received_packages
          ≡ c.received_packages ++ map package_of es)
receive_all-received es h before pieces c s o e b ps cut = (
  receive_all-scan process_text before pieces (idle c) b ps
      ∙ ap (λ x. scan process_text x (idle c))
          (cut
            ∙ send_all-send_buffer (map package_of es) h o (all_valid es s)
            ∙ ap (λ x. x ++ wire_texts (map package_of es)) e)
      ∙ scan-taken_all es c s,
  taken_all-received (map package_of es) c,
)
