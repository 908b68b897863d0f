-- ===== src/Tests/Sockets.antt =====
-- Concrete tables of sockets, and the witnesses of the theorems on the network collector.
use sentinel_linux.Prelude.{
  ℕ, ◌≡◌, refl, true, false, none, some, List, [], ◌∷◌, String, All, keep, arith,
}
use sentinel_linux.Prelude.Int.{pos}
use sentinel_linux.Prelude.Text.{decimal}
use sentinel_linux.Prelude.Words.{int_of, hex_int_of}
use sentinel_linux.Dict.{has}
use sentinel_linux.Collectors.Netparse.{
  parse_net_line, parse_endpoint, parse_ipv4_hex, ipv4_text, key, socket_key,
}
use sentinel_linux.Collectors.Netparse.Endpoint.{kernel_endpoint, parse_endpoint-kernel_endpoint}
use sentinel_linux.Collectors.Network.{Tables, scan, rows, is_listener}
use sentinel_linux.Collectors.Network.Scan.{scan-listeners}

abbrev no_ipv6 : List ℕ → String
no_ipv6 bytes = "::"

listener_line :
    parse_net_line no_ipv6
      "   0: 0100007F:0050 00000000:0000 0a 00000000:00000000 00:00000000 00000000  1000        0 12345 1"
      "tcp"
    ≡ some (record {
      proto = "tcp";
      local_ip = "127.0.0.1";
      local_port = 80;
      remote_ip = "0.0.0.0";
      remote_port = 0;
      state = "LISTEN";
      uid = pos 1000;
      inode = pos 12345;
    })
unfolding parse_net_line decimal hex_int_of parse_ipv4_hex int_of
listener_line = refl

parse_endpoint-kernel_endpoint_example :
    parse_endpoint no_ipv6 (kernel_endpoint 192 168 1 20 443) false
    ≡ some (ipv4_text (192 ∷ 168 ∷ 1 ∷ 20 ∷ []), 443)
parse_endpoint-kernel_endpoint_example =
    parse_endpoint-kernel_endpoint no_ipv6 192 168 1 20 443 (omega arith) (omega arith)
      (omega arith) (omega arith) (omega arith)

abbrev table_text : String
table_text =
    "  sl  local_address rem_address   st\n   0: 0100007F:0050 0100007F:9000 01 0:0 0:0 0 0 0 11 1\n   1: 00000000:1F90 00000000:0000 0A 0:0 0:0 0 0 0 12 1\n"

abbrev tables : Tables
tables = record { links = none; tcp = some table_text; tcp6 = none }

scan-listeners_example :
    All
      (λ s. has (key s) (scan no_ipv6 true 1 tables).0 ≡ true)
      (keep is_listener (rows no_ipv6 true tables))
unfolding rows parse_net_line decimal hex_int_of parse_ipv4_hex int_of
scan-listeners_example = scan-listeners no_ipv6 true 1 tables (omega arith)
