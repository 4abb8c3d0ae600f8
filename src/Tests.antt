-- ===== src/Tests.antt =====
-- Runs of the code on small inputs.
use sni_router.Common.{ℕ, ◌≡◌, refl, List, [], ◌∷◌, ◌++◌, replicate, some, ok, length}
use sni_router.Protocol.{default_limits}
use sni_router.Lookup.Text.{to_ascii_lowercase}
use sni_router.Lookup.Names.{validate_dns_name}
use sni_router.Lookup.Ip.{parse_ip}
use sni_router.Lookup.Hostname
use sni_router.Protocol.Reader.{is_empty, vec8, vec16}
use sni_router.Protocol.Utf8.{is_utf8}
use sni_router.Protocol.Names.{parse_server_name, read_entries, read_entry}
use sni_router.Protocol.Seen
use sni_router.Protocol.Seen.{has_duplicate}
use sni_router.Protocol.Hello.{
  parse_client_hello_body, parse_extensions, read_extensions, read_extension,
}
use sni_router.Protocol.Payloads
use sni_router.Protocol.Header
use sni_router.Protocol.Header.{check_record_header, observe}
use sni_router.Protocol.Record.{parse_client_hello, scan_records, scan, round}

abbrev body_start : List ℕ
body_start = 0x03 ∷ 0x03 ∷ (replicate 32 0x42 ++ 0 ∷ 0 ∷ 2 ∷ 0x13 ∷ 0x01 ∷ 1 ∷ 0 ∷ [])

abbrev sni_extension : List ℕ
sni_extension = 0 ∷ 0 ∷ 0 ∷ 8 ∷ 0 ∷ 6 ∷ 0 ∷ 0 ∷ 3 ∷ b'A' ∷ b'.' ∷ b'b' ∷ []

abbrev hello_body : List ℕ
hello_body = body_start ++ 0 ∷ 12 ∷ sni_extension

abbrev wire : List ℕ
wire = 0x16 ∷ 0x03 ∷ 0x01 ∷ 0 ∷ 59 ∷ 0x01 ∷ 0 ∷ 0 ∷ 55 ∷ hello_body

wire_length : length hello_body ≡ 55
wire_length = refl

parses :
    parse_client_hello wire default_limits
    ≡ ok (record { sni = some (record { text = b'a' ∷ b'.' ∷ b'b' ∷ [] }); consumed = 64 })
unfolding parse_client_hello scan_records scan round check_record_header Payloads.new Payloads.len
    Payloads.push Payloads.as_slice Header.new observe parse_client_hello_body is_empty vec8 vec16
    parse_extensions read_extensions read_extension Seen.new Seen.push has_duplicate
    parse_server_name read_entries read_entry is_utf8 Hostname.parse validate_dns_name parse_ip
    to_ascii_lowercase
parses = refl
