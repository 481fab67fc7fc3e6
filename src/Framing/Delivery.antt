-- ===== src/Framing/Delivery.antt =====
-- Packages between two programs: what `serialize` of daemon/src/package.cpp writes, the receiver of
-- daemon/src/abstract_host.cpp cuts at the same places.
use yonderboy.Prelude.{
  ℕ, true, false, List, [], ◌∷◌, ◌++◌, ◌≡◌, ◌≢◌, refl, sym, ap, ◌∙◌, arith, Bytes, All,
  append_assoc, append-nil,
}
use yonderboy.Package.Wire.{Lacks}
use yonderboy.Package.Lines.{unlines, IsLine, HasLines}
use yonderboy.Framing.{Receiver, parse_received_data}
use yonderboy.Framing.Scan.{scan, scan_byte, scan-append, IsPiece, parse_received_data_piece}

-- A receiver that waits for the first byte of a package.
abbrev pub idle {ℓ} : {S : Type ℓ} → S → Receiver S
idle s = record { parse_buffer = []; received_newline = false; processed = s }

abbrev pub joined : List Bytes → Bytes
joined [] = []
joined (c ∷ cs) = c ++ joined cs

module _ {ℓ} {S : Type ℓ} (process : Bytes → S → S) where
  -- A line is collected whole.
  scan_line :
      (line : Bytes) (r : Receiver S)
      → Lacks b'\n' line
      → line ≢ []
      → scan process (line ++ b'\n' ∷ []) r ≡ record r {
        parse_buffer = r.parse_buffer ++ (line ++ b'\n' ∷ []);
        received_newline = true;
      }
  unfolding scan scan_byte
  scan_line [] r h ne = absurd (ne refl)
  scan_line (c ∷ []) r h ne = ground (arith, append_assoc r.parse_buffer (c ∷ []) (b'\n' ∷ []))
  scan_line (c ∷ d ∷ cs) r h ne = ground (
    arith,
    scan_line (d ∷ cs)
        (record r { parse_buffer = r.parse_buffer ++ c ∷ []; received_newline = false }) h.1,
    append_assoc r.parse_buffer (c ∷ []) (d ∷ (cs ++ b'\n' ∷ [])),
  )

  scan_lines :
      (ls : List Bytes) (l : Bytes) (r : Receiver S)
      → IsLine l
      → All IsLine ls
      → scan process (unlines (l ∷ ls)) r
        ≡ record r { parse_buffer = r.parse_buffer ++ unlines (l ∷ ls); received_newline = true }
  scan_lines [] l r h hs =
      ap (λ x. scan process x r) (append-nil (l ++ b'\n' ∷ []))
      ∙ scan_line l r h.no_newline h.some_text
      ∙ rw append-nil
  scan_lines (m ∷ ls) l r h hs =
      let line = l ++ b'\n' ∷ [] in
      let r' = record r { parse_buffer = r.parse_buffer ++ line; received_newline = true } in
      scan-append process line (unlines (m ∷ ls)) r
      ∙ ap (scan process (unlines (m ∷ ls))) (scan_line l r h.no_newline h.some_text)
      ∙ scan_lines ls m r' hs.0 hs.1
      ∙ rw append_assoc

  -- A package's text and an empty line make the receiver process that text.
  pub scan_package_text :
      (text : Bytes) (s : S)
      → HasLines text
      → scan process (text ++ b'\n' ∷ []) (idle s) ≡ idle (process text s)
  scan_package_text text s h =
      scan-append process text (b'\n' ∷ []) (idle s)
      ∙ ap (λ x. scan process (b'\n' ∷ []) (scan process x (idle s))) h.whole
      ∙ ap (scan process (b'\n' ∷ []))
          (scan_lines h.others h.first (idle s) h.first_line h.other_lines)
      ∙ unfold scan scan_byte in ap (λ x. idle (process x s)) (sym h.whole)

  abbrev pub receive_all : ℕ → List Bytes → Receiver S → Receiver S
  receive_all before [] r = r
  receive_all before (c ∷ cs) r = receive_all before cs (parse_received_data process before c r)

  pub receive_all-scan :
      (before : ℕ) (pieces : List Bytes) (r : Receiver S)
      → before ≢ b'\n'
      → All IsPiece pieces
      → receive_all before pieces r ≡ scan process (joined pieces) r
  receive_all-scan before [] r b h = unfold scan in refl
  receive_all-scan before (c ∷ cs) r b h =
      ap (receive_all before cs) (parse_received_data_piece process before c r b h.0)
      ∙ receive_all-scan before cs (scan process c r) b h.1
      ∙ sym (scan-append process c (joined cs) r)
