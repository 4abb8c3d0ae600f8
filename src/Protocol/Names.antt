-- ===== src/Protocol/Names.antt =====
-- crates/sni_router/src/protocol/hello.rs: the server_name extension.
pub mod Entries
use sni_router.Common.{
  ℕ, zero, suc, ◌≡◌, Bool, true, false, List, [], ◌∷◌, Option, none, some, Result, ok, err, ◌>>=◌,
  ◌>>◌, ok_or, map_err, reject_if, length, ◌==◌, if◌then◌else◌, not,
}
use sni_router.Lookup.Names.{invalid_character}
use sni_router.Lookup.Hostname
use sni_router.Lookup.Hostname.{Hostname, is_some}
use sni_router.Protocol.{ParseError, malformed, invalid_server_name}
use sni_router.Protocol.Reader.{Reader, is_empty, u8, vec16}
use sni_router.Protocol.Utf8.{is_utf8}

abbrev pub name_type_host_name : ℕ
name_type_host_name = 0

-- One round of the loop: an entry is read, and the name that is known so far is kept or set.
unfoldable pub read_entry : Reader → Option Hostname → Result ParseError (Option Hostname × Reader)
read_entry r host_name = do
  (name_type, r1) ← ok_or (u8 r) (malformed "truncated server name type")
  (name, r2) ← ok_or (vec16 r1) (malformed "truncated server name")
  reject_if (is_empty name) (malformed "empty server name")
  if not (name_type == name_type_host_name) then ok (host_name, r2) else do
    reject_if (is_some host_name) (malformed "multiple host_name entries")
    reject_if (not (is_utf8 name)) (invalid_server_name invalid_character)
    host ← map_err (Hostname.parse name) invalid_server_name
    ok (some host, r2)

-- The loop, with fuel. Each round reads a byte or more, so that fuel for each byte is enough.
unfoldable pub read_entries : ℕ → Reader → Option Hostname → Result ParseError (Option Hostname)
read_entries zero r host_name = ok host_name
read_entries (suc fuel) r host_name = elim (is_empty r) [
  | true ↦ ok host_name
  | false ↦ elim (read_entry r host_name) [
    | err e ↦ err e
    | ok (host_name', rest) ↦ read_entries fuel rest host_name'
  ]
]

unfoldable pub parse_server_name : List ℕ → Result ParseError (Option Hostname)
parse_server_name payload = do
  (list, outer) ← ok_or (vec16 payload) (malformed "truncated server_name_list")
  reject_if (not (is_empty outer)) (malformed "trailing bytes after server_name_list")
  reject_if (is_empty list) (malformed "empty server_name_list")
  read_entries (length list) list none
