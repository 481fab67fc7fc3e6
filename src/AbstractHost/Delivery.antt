-- ===== src/AbstractHost/Delivery.antt =====
-- From `sendPackage` on one side to `processPackage` on the other (daemon/src/abstract_host.cpp,
-- daemon/src/package.cpp): the packages arrive complete, in order and unchanged.
use yonderboy.Prelude.{
  ℕ, true, some, List, [], ◌∷◌, ◌++◌, ◌≡◌, ◌≢◌, sym, ap, ◌∙◌, Bytes, All, map, append_assoc,
  append-nil,
}
use yonderboy.Package.{Package, KeyValueMap, serialize, parse_package, make_package}
use yonderboy.Package.Wire.{IsWireSafe, parse_package-serialize}
use yonderboy.Package.Lines.{serialize-HasLines}
use yonderboy.Framing.Scan.{scan, scan-append, IsPiece}
use yonderboy.Framing.Delivery.{idle, scan_package_text, receive_all, receive_all-scan, joined}
use yonderboy.AbstractHost.{Host}
use yonderboy.AbstractHost.Sending.{
  wire_text, wire_texts, send_all, send_all-send_buffer, IsOpen, AllValid,
}

-- A package that was made from a map and a JSON line which can stand on lines, and that is valid.
pub record IsSendable (e : KeyValueMap × Bytes) : Type 0 where
  pub has_entry : e.0 ≢ []
  pub wire_safe : IsWireSafe e.0 e.1
  pub is_valid : (make_package (some e.0) e.1).valid ≡ true

abbrev pub package_of : KeyValueMap × Bytes → Package
package_of (m, json) = make_package (some m) json

-- The receiver keeps what it parses.
abbrev pub keep_package : Bytes → List Package → List Package
keep_package text ps = ps ++ parse_package text ∷ []

scan-wire_texts :
    (es : List (KeyValueMap × Bytes)) (got : List Package)
    → All IsSendable es
    → scan keep_package (wire_texts (map package_of es)) (idle got)
      ≡ idle (got ++ map package_of es)
scan-wire_texts [] got h = unfold scan in ap (idle) (sym (append-nil got))
scan-wire_texts ((m, json) ∷ es) got h =
    let p = make_package (some m) json in
    let rest = wire_texts (map package_of es) in
    let safe = h.0.wire_safe in
    scan-append keep_package (wire_text p) rest (idle got)
    ∙ ap (scan keep_package rest) (
        scan_package_text keep_package (serialize p) got
          (serialize-HasLines m json h.0.has_entry safe))
    ∙ ap (λ q. scan keep_package rest (idle (got ++ q ∷ []))) (parse_package-serialize m json safe)
    ∙ scan-wire_texts es (got ++ p ∷ []) h.1
    ∙ ap (idle) (append_assoc got (p ∷ []) (map package_of es))

pub all_valid : (es : List (KeyValueMap × Bytes)) → All IsSendable es → AllValid (map package_of es)
all_valid [] h = tt
all_valid (e ∷ es) h = (h.0.is_valid, all_valid es h.1)

-- Packages that are made from maps and JSON lines which can stand on lines, are valid and have an
-- entry, sent over an open connection with an empty send buffer, and cut on their way into pieces
-- of at most 4096 bytes with no zero byte, are processed by the receiver, where the byte in front
-- of the characters of an empty text is no newline: all of them, in order, equal to what was
-- sent; and the receiver then waits for the next package.
pub receive-send :
    (es : List (KeyValueMap × Bytes)) (h : Host) (before : ℕ) (pieces : List Bytes)
    → All IsSendable es
    → IsOpen h
    → h.send_buffer ≡ []
    → before ≢ b'\n'
    → All IsPiece pieces
    → joined pieces ≡ (send_all (map package_of es) h).send_buffer
    → receive_all keep_package before pieces (idle []) ≡ idle (map package_of es)
receive-send es h before pieces s o e b ps cut =
    receive_all-scan keep_package before pieces (idle []) b ps
    ∙ ap (λ x. scan keep_package x (idle []))
        (cut
          ∙ send_all-send_buffer (map package_of es) h o (all_valid es s)
          ∙ ap (λ x. x ++ wire_texts (map package_of es)) e)
    ∙ scan-wire_texts es [] s
