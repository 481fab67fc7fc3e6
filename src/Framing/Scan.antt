-- ===== src/Framing/Scan.antt =====
-- The cutting of daemon/src/abstract_host.cpp against a reader that goes byte by byte.
use yonderboy.Prelude.{
  ℕ, zero, suc, ◌+◌, ◌≤◌, true, false, ◌&&◌, none, some, [], ◌∷◌, ◌++◌, ◌⊎◌, inl, inr, ◌≡◌, ◌≢◌,
  refl, sym, ap, ◌∙◌, arith, Bytes, length, length-drop, take, drop, ◌==◌, if◌then◌else◌,
  append-nil, append_assoc, Bool-cases, Option-cases,
}
use yonderboy.Framing.{
  Receiver, received_text, find_empty_line, end_pending, take_packages, keep_rest,
  parse_received_data,
}

-- A piece that one call of `recv` delivers whole: not empty, at most 4096 bytes, no zero byte.
pub record IsPiece (chunk : Bytes) : Type 0 where
  pub nonempty : chunk ≢ []
  pub whole : received_text chunk ≡ chunk

find_empty_line-none :
    (c d : ℕ) (cs : Bytes)
    → find_empty_line (c ∷ d ∷ cs) ≡ none
    → ((c == b'\n' && d == b'\n') ≡ false) × (find_empty_line (d ∷ cs) ≡ none)
unfolding find_empty_line
find_empty_line-none c d cs h = ground arith

find_empty_line-some :
    (c d : ℕ) (cs : Bytes) (n : ℕ)
    → find_empty_line (c ∷ d ∷ cs) ≡ some n
    → ((n ≡ 0) × (c ≡ b'\n') × (d ≡ b'\n'))
      ⊎ ((m : ℕ) × (n ≡ suc m)
          × ((c == b'\n' && d == b'\n') ≡ false)
          × (find_empty_line (d ∷ cs) ≡ some m))
unfolding find_empty_line
find_empty_line-some c d cs n h = ground arith

-- A package ends at a newline that follows a newline; any other byte is collected.
module _ {ℓ} {S : Type ℓ} (process : Bytes → S → S) where
  unfoldable pub scan_byte : ℕ → Receiver S → Receiver S
  scan_byte c r =
      if r.received_newline && c == b'\n'
      then record {
        parse_buffer = [];
        received_newline = false;
        processed = process r.parse_buffer r.processed;
      }
      else record r { parse_buffer = r.parse_buffer ++ c ∷ []; received_newline = c == b'\n' }

  unfoldable pub scan : Bytes → Receiver S → Receiver S
  unfolding scan_byte
  scan [] r = r
  scan (c ∷ cs) r = scan cs (scan_byte c r)

  pub scan-append : (xs ys : Bytes) (r : Receiver S) → scan (xs ++ ys) r ≡ scan ys (scan xs r)
  unfolding scan
  scan-append [] ys r = refl
  scan-append (x ∷ xs) ys r = scan-append xs ys (scan_byte x r)

  -- No package ends at the first byte.
  abbrev StartsInside : Bytes → Receiver S → Type 0
  StartsInside [] r = Unit
  StartsInside (c ∷ cs) r = (r.received_newline && c == b'\n') ≡ false

  scan_byte-inside :
      (c : ℕ) (r : Receiver S)
      → (r.received_newline && c == b'\n') ≡ false
      → scan_byte c r
        ≡ record r { parse_buffer = r.parse_buffer ++ c ∷ []; received_newline = c == b'\n' }
  unfolding scan_byte
  scan_byte-inside c r h = ground arith

  abbrev collect : ℕ → Receiver S → Receiver S
  collect c r = record r { parse_buffer = r.parse_buffer ++ c ∷ []; received_newline = c == b'\n' }

  scan-rest :
      (before : ℕ) (c : ℕ) (cs : Bytes) (r : Receiver S)
      → StartsInside (c ∷ cs) r
      → find_empty_line (c ∷ cs) ≡ none
      → scan (c ∷ cs) r ≡ keep_rest process before (c ∷ cs, r)
  unfolding scan find_empty_line keep_rest
  scan-rest before c [] r i h = scan_byte-inside c r i
  scan-rest before c (d ∷ cs) r i h =
      let (inside, later) = find_empty_line-none c d cs h in
      ap (λ x. scan (d ∷ cs) x) (scan_byte-inside c r i)
      ∙ scan-rest c d cs (collect c r) inside later
      ∙ ground (arith, append_assoc r.parse_buffer (c ∷ []) (d ∷ cs))

  first :
      (c d : ℕ) (cs : Bytes) (r : Receiver S)
      → StartsInside (c ∷ d ∷ cs) r
      → c ≡ b'\n'
      → d ≡ b'\n'
      → scan (c ∷ d ∷ cs) r
        ≡ scan cs (record {
          parse_buffer = [];
          received_newline = false;
          processed = process (r.parse_buffer ++ c ∷ []) r.processed;
        })
  unfolding scan scan_byte
  first c d cs r i p q = ground arith

  -- Up to the first empty line the bytes are collected, and there the package is processed.
  scan-package :
      (buffer : Bytes) (n : ℕ) (r : Receiver S)
      → StartsInside buffer r
      → find_empty_line buffer ≡ some n
      → scan buffer r
        ≡ scan (drop (n + 2) buffer) (record {
          parse_buffer = [];
          received_newline = false;
          processed = process (r.parse_buffer ++ take (n + 1) buffer) r.processed;
        })
  unfolding scan
  scan-package [] n r i h = unfold find_empty_line in cc
  scan-package (c ∷ []) n r i h = unfold find_empty_line in cc
  scan-package (c ∷ d ∷ cs) n r i h = elim (find_empty_line-some c d cs n h) [
    | inl (e, p, q) ↦ rw e (first c d cs r i p q)
    | inr (m, e, inside, later) ↦
        let two : n + 2 ≡ suc (m + 2) = omega arith in
        let one : n + 1 ≡ suc (m + 1) = omega arith in
        rw (two, one)
          (ap (λ x. scan (d ∷ cs) x) (scan_byte-inside c r i)
            ∙ scan-package (d ∷ cs) m (collect c r) inside later
            ∙ rw append_assoc)
  ]

  keep_rest-nil :
      (before : ℕ) (r : Receiver S)
      → before ≢ b'\n'
      → keep_rest process before ([], r) ≡ record r { received_newline = false }
  unfolding keep_rest
  keep_rest-nil before r h = ground (arith, append-nil r.parse_buffer)

  keep_rest_inside :
      (before c : ℕ) (cs : Bytes) (r : Receiver S)
      → keep_rest process before (c ∷ cs, r)
        ≡ keep_rest process before (c ∷ cs, record r { received_newline = false })
  unfolding keep_rest
  keep_rest_inside before c cs r = refl

  scan_pending :
      (c : ℕ) (cs : Bytes) (r : Receiver S)
      → (r.received_newline && c == b'\n') ≡ true
      → scan (c ∷ cs) r
        ≡ scan cs (record {
          parse_buffer = [];
          received_newline = false;
          processed = process r.parse_buffer r.processed;
        })
  unfolding scan scan_byte
  scan_pending c cs r e = rw e

  scan_inside :
      (c : ℕ) (cs : Bytes) (r : Receiver S)
      → (r.received_newline && c == b'\n') ≡ false
      → scan (c ∷ cs) r ≡ scan (c ∷ cs) (record r { received_newline = false })
  unfolding scan scan_byte
  scan_inside c cs r e = rw e

  -- Cutting at empty lines is scanning from a text that no newline precedes.
  take_packages-scan :
      (before fuel : ℕ) (buffer : Bytes) (r : Receiver S)
      → before ≢ b'\n'
      → length buffer ≤ fuel
      → keep_rest process before (take_packages process fuel (buffer, r))
        ≡ scan buffer (record r { received_newline = false })
  unfolding take_packages scan
  take_packages-scan before zero [] r b le = keep_rest-nil before r b
  take_packages-scan before zero (c ∷ cs) r b le = absurd (omega arith)
  take_packages-scan before (suc fuel) [] r b le =
      unfold find_empty_line in keep_rest-nil before r b
  take_packages-scan before (suc fuel) (c ∷ cs) r b le =
      elim (Option-cases (find_empty_line (c ∷ cs))) [
        | inl e ↦
            rw (e, take_packages)
              (keep_rest_inside before c cs r
                ∙ sym (scan-rest before c cs (record r { received_newline = false }) refl e))
        | inr (n, e) ↦
            rw (e, take_packages)
              (take_packages-scan before fuel (drop (n + 2) (c ∷ cs)) _ b
                  (omega (arith, length-drop (n + 2) (c ∷ cs)))
                ∙ sym (scan-package (c ∷ cs) n (record r { received_newline = false }) refl e))
      ]

  -- On a received text that is not empty, and with no newline in front of the characters of an
  -- empty text, the cutting at empty lines is a reader that goes byte by byte: a package ends at
  -- a newline that follows a newline, also across two calls.
  pub parse_received_data-scan :
      (before : ℕ) (chunk : Bytes) (r : Receiver S)
      → before ≢ b'\n'
      → received_text chunk ≢ []
      → parse_received_data process before chunk r ≡ scan (received_text chunk) r
  unfolding parse_received_data
  parse_received_data-scan before chunk r b ne = start (received_text chunk) ne
    where
      start :
          (text : Bytes)
          → text ≢ []
          → keep_rest process before (
              take_packages process
                (length (end_pending process (text, r)).0)
                (end_pending process (text, r)))
            ≡ scan text r
      start [] ne = absurd (ne refl)
      start (c ∷ cs) ne = elim (Bool-cases (r.received_newline && c == b'\n')) [
        | inl e ↦ rw e (
            take_packages-scan before (length cs) cs _ b (omega arith)
            ∙ sym (scan_pending c cs r e))
        | inr e ↦ rw e (
            take_packages-scan before (suc (length cs)) (c ∷ cs) r b (omega arith)
            ∙ sym (scan_inside c cs r e))
      ]

  pub parse_received_data_piece :
      (before : ℕ) (chunk : Bytes) (r : Receiver S)
      → before ≢ b'\n'
      → IsPiece chunk
      → parse_received_data process before chunk r ≡ scan chunk r
  parse_received_data_piece before chunk r b p =
      parse_received_data-scan before chunk r b (λ e. p.nonempty (sym p.whole ∙ e))
      ∙ ap (λ x. scan x r) p.whole

  -- Receiving two pieces one after the other is receiving them as one, if they are pieces that
  -- one call of recv delivers whole and no newline stands in front of the characters of an empty
  -- text.
  pub parse_received_data-append :
      (before : ℕ) (xs ys : Bytes) (r : Receiver S)
      → before ≢ b'\n'
      → IsPiece xs
      → IsPiece ys
      → IsPiece (xs ++ ys)
      → parse_received_data process before ys (parse_received_data process before xs r)
        ≡ parse_received_data process before (xs ++ ys) r
  parse_received_data-append before xs ys r b px py pz =
      ap (parse_received_data process before ys) (parse_received_data_piece before xs r b px)
      ∙ parse_received_data_piece before ys _ b py
      ∙ sym (scan-append xs ys r)
      ∙ sym (parse_received_data_piece before (xs ++ ys) r b pz)
