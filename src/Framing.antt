-- ===== src/Framing.antt =====
-- The receiving half of daemon/src/abstract_host.cpp (`parseReceivedData`): the bytes of a socket,
-- read in pieces, are cut into packages at empty lines. `process` stands for `processPackage`,
-- which takes the text that has been collected; the collected text is cleared behind it.
pub mod Scan
pub mod Delivery
use yonderboy.Prelude.{
  ℕ, zero, suc, ◌+◌, Bool, true, false, ◌&&◌, Option, none, some, [], ◌∷◌, ◌++◌, Bytes, length,
  take, drop, ◌==◌, if◌then◌else◌,
}

-- The members `parseBuffer` and `receivedNewline`, and the state that `processPackage` changes.
pub record Receiver {ℓ} (S : Type ℓ) : Type ℓ where
  pub parse_buffer : Bytes
  pub received_newline : Bool
  pub processed : S

abbrev pub receive_size : ℕ
receive_size = 4096

-- `strlen` counts up to the first zero byte.
unfoldable pub up_to_zero : Bytes → Bytes
up_to_zero [] = []
up_to_zero (c ∷ cs) = if c == 0 then [] else c ∷ up_to_zero cs

unfoldable pub received_text : Bytes → Bytes
unfolding up_to_zero
received_text chunk = take receive_size (up_to_zero chunk)

-- `buffer.find("\n\n")`
unfoldable pub find_empty_line : Bytes → Option ℕ
find_empty_line [] = none
find_empty_line (c ∷ []) = none
find_empty_line (c ∷ d ∷ cs) =
    if c == b'\n' && d == b'\n'
    then some 0
    else (elim (find_empty_line (d ∷ cs)) [ none ↦ none | some n ↦ some (suc n) ])

-- `*(buffer.rbegin())`. Of an empty text this is the byte in front of its characters, `before`.
unfoldable pub last_or : ℕ → Bytes → ℕ
last_or before [] = before
last_or before (c ∷ cs) = last_or c cs

module _ {ℓ} {S : Type ℓ} (process : Bytes → S → S) where
  unfoldable pub process_package : Receiver S → Receiver S
  process_package r = record r { parse_buffer = []; processed = process r.parse_buffer r.processed }

  -- The end of a package whose last line came with an earlier piece.
  unfoldable pub end_pending : Bytes × Receiver S → Bytes × Receiver S
  unfolding process_package
  end_pending ([], r) = ([], r)
  end_pending (c ∷ cs, r) =
      if r.received_newline && c == b'\n'
      then (cs, record (process_package r) { received_newline = false })
      else (c ∷ cs, r)

  -- Each round takes a package off the text, so the text's length is fuel enough.
  unfoldable pub take_packages : ℕ → Bytes × Receiver S → Bytes × Receiver S
  unfolding process_package
  take_packages zero (buffer, r) = (buffer, r)
  take_packages (suc fuel) (buffer, r) = elim (find_empty_line buffer) [
    | none ↦ (buffer, r)
    | some n ↦ take_packages fuel (
      drop (n + 2) buffer,
      process_package (record r { parse_buffer = r.parse_buffer ++ take (n + 1) buffer }),
    )
  ]

  unfoldable pub keep_rest : ℕ → Bytes × Receiver S → Receiver S
  unfolding last_or
  keep_rest before (buffer, r) = record r {
    received_newline = last_or before buffer == b'\n';
    parse_buffer = r.parse_buffer ++ buffer;
  }

  unfoldable pub parse_received_data : ℕ → Bytes → Receiver S → Receiver S
  unfolding received_text end_pending take_packages keep_rest find_empty_line
  parse_received_data before chunk r =
      let (buffer, r') = end_pending (received_text chunk, r) in
      keep_rest before (take_packages (length buffer) (buffer, r'))
