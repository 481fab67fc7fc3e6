-- ===== src/Tests/Wire.antt =====
-- Packages on their way: runs of Package, PackageFactories, Framing and AbstractHost.
use yonderboy.Prelude.Map.{find}
use yonderboy.Prelude.{◌≡◌, ◌++◌, refl, arith, inr, [], ◌∷◌, some, true, bytes_eq, bytes_less}
use yonderboy.Prelude.Text.{codes, read_u64}
use yonderboy.Package.{make_package, parse_package, serialize}
use yonderboy.Package.Wire.{parse_package-serialize}
use yonderboy.Framing.{parse_received_data, received_text}
use yonderboy.Framing.Scan.{parse_received_data-scan, scan}
use yonderboy.Framing.Delivery.{idle, receive_all}
use yonderboy.AbstractHost.Delivery.{receive-send, keep_package, package_of}
use yonderboy.AbstractHost.{
  Host, send_package, write_callback, sent, refused, would_block, other, piece, int_size,
  update_next_package_id,
}
use yonderboy.AbstractHost.Writing.{write_callback-append, write_callback-all}
use yonderboy.AbstractHost.Identifiers.{update_next_package_id-IsAhead, IsAhead}
use yonderboy.Macros.{disconnected}
use yonderboy.Tests.Data.{
  a_viewer, open_uri, open_uri-IsWireSafe, open_uri-valid, a_host, a_renderer,
}

parse_command :
    (parse_package (codes "type = command\n command= open-uri \nid=7\n{}\n")).key_value_map
    ≡ (codes "command", codes "open-uri")
      ∷ (codes "id", codes "7")
      ∷ (codes "type", codes "command")
      ∷ []
unfolding parse_package bytes_eq bytes_less
parse_command = refl

parse_package-serialize_example :
    parse_package (serialize (make_package (some open_uri) (codes "{}")))
    ≡ make_package (some open_uri) (codes "{}")
parse_package-serialize_example = parse_package-serialize open_uri (codes "{}") open_uri-IsWireSafe

receive-send_example :
    receive_all keep_package b'='
      (codes "command = open-uri\nty" ∷ codes "pe = command\n{}\n\n" ∷ [])
      (idle [])
    ≡ idle (package_of (open_uri, codes "{}") ∷ [])
unfolding send_package make_package bytes_eq bytes_less received_text find read_u64
receive-send_example =
    receive-send ((open_uri, codes "{}") ∷ []) (a_host a_renderer) b'='
      (codes "command = open-uri\nty" ∷ codes "pe = command\n{}\n\n" ∷ [])
      (
        record {
          has_entry = λ e. ground arith;
          wire_safe = open_uri-IsWireSafe;
          is_valid = open_uri-valid;
        },
        tt,
      )
      (inr refl) refl (omega arith)
      (
        record { nonempty = λ e. ground arith; whole = refl },
        (record { nonempty = λ e. ground arith; whole = refl }, tt),
      )
      refl

parse_received_data-scan_example :
    parse_received_data keep_package b'=' (codes "a=b\n\n") (idle [])
    ≡ scan keep_package (received_text (codes "a=b\n\n")) (idle [])
unfolding received_text
parse_received_data-scan_example =
    parse_received_data-scan keep_package b'=' (codes "a=b\n\n") (idle []) (omega arith)
      (λ e. ground arith)

abbrev a_closed_host : Host
a_closed_host = record (a_host a_renderer) { state = disconnected }

abbrev a_full_host : Host
a_full_host = record (a_host a_renderer) { send_buffer = codes "ab\n\n"; write_active = true }

write_callback-append_example :
    (write_callback (sent 3 ∷ refused would_block ∷ []) true other a_full_host).wire
      ++ (write_callback
          (sent 3 ∷ refused would_block ∷ [])
          true
          other
          a_full_host).host.send_buffer
    ≡ codes "ab\n\n"
unfolding piece int_size
write_callback-append_example =
    write_callback-append (sent 3 ∷ refused would_block ∷ []) true a_full_host (omega arith, tt)

write_callback-all_example :
    ((write_callback (sent 3 ∷ sent 1 ∷ sent 0 ∷ sent 0 ∷ []) true other a_full_host).wire
      ≡ codes "ab\n\n")
    × ((write_callback
          (sent 3 ∷ sent 1 ∷ sent 0 ∷ sent 0 ∷ [])
          true
          other
          a_full_host).host.send_buffer
        ≡ [])
write_callback-all_example =
    write_callback-all (sent 3 ∷ sent 1 ∷ sent 0 ∷ sent 0 ∷ []) true a_full_host (omega arith)
      (
        (λ n. omega arith),
        omega arith,
        (
          (λ n. omega arith),
          omega arith,
          ((λ n. absurd (n refl)), omega arith, ((λ n. absurd (n refl)), omega arith, tt)),
        ),
      )
      (omega arith)

update_next_package_id-IsAhead_example :
    IsAhead 41 (a_host a_viewer) (update_next_package_id 41 (a_host a_viewer))
update_next_package_id-IsAhead_example =
    update_next_package_id-IsAhead 41 (a_host a_viewer) (omega arith) (omega arith)
