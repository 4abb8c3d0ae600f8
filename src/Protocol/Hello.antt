-- ===== src/Protocol/Hello.antt =====
-- crates/sni_router/src/protocol/hello.rs: the ClientHello body and its extensions.
pub mod Written
pub mod Extensions
pub mod Body
use sni_router.Common.{
  ℕ, zero, suc, ◌/◌, ◌%◌, ◌^◌, ◌≡◌, Bool, true, false, ◌||◌, List, [], ◌∷◌, Option, none, some,
  Result, ok, err, ◌>>=◌, ◌>>◌, ok_or, reject_if, length, ltb, ◌==◌, if◌then◌else◌, not,
}
use sni_router.Lookup.Hostname.{Hostname}
use sni_router.Protocol.{ParseError, malformed}
use sni_router.Protocol.Reader.{Reader, is_empty, bytes, u16, vec8, vec16}
use sni_router.Protocol.Names.{parse_server_name}
use sni_router.Protocol.Seen
use sni_router.Protocol.Seen.{SeenTypes}

abbrev pub extension_server_name : ℕ
extension_server_name = 0

abbrev pub random_len : ℕ
random_len = 32

abbrev pub max_session_id_len : ℕ
max_session_id_len = 32

pub record Scan : Type 0 where
  pub seen : SeenTypes
  pub sni : Option Hostname

-- One round of the loop of `parse_extensions`.
unfoldable pub read_extension : Reader → Scan → Result ParseError (Scan × Reader)
read_extension r s = do
  (extension_type, r1) ← ok_or (u16 r) (malformed "truncated extension type")
  (payload, r2) ← ok_or (vec16 r1) (malformed "truncated extension data")
  let seen = Seen.push s.seen extension_type
  if extension_type == extension_server_name
      then (do sni ← parse_server_name payload; ok (record { seen = seen; sni = sni }, r2))
      else ok (record { seen = seen; sni = s.sni }, r2)

-- The loop, with fuel. Each round reads four bytes or more.
unfoldable pub read_extensions : ℕ → Reader → Scan → Result ParseError Scan
read_extensions zero r s = ok s
read_extensions (suc fuel) r s = elim (is_empty r) [
  | true ↦ ok s
  | false ↦ elim (read_extension r s) [
    | err e ↦ err e
    | ok (s', rest) ↦ read_extensions fuel rest s'
  ]
]

unfoldable pub parse_extensions : List ℕ → Result ParseError (Option Hostname)
parse_extensions extensions = do
  s ← read_extensions (length extensions) extensions (record { seen = Seen.new; sni = none })
  reject_if (Seen.has_duplicate s.seen) (malformed "duplicate extension type")
  ok s.sni

-- What follows the compression methods: nothing, or the extensions and nothing more.
unfoldable pub parse_rest : Reader → Result ParseError (Option Hostname)
parse_rest r = if is_empty r then ok none else do
  (extensions, r1) ← ok_or (vec16 r) (malformed "truncated extensions")
  reject_if (not (is_empty r1)) (malformed "trailing bytes after extensions")
  parse_extensions extensions

unfoldable pub parse_client_hello_body : List ℕ → Result ParseError (Option Hostname)
unfolding parse_rest
parse_client_hello_body body = do
  (version, r1) ← ok_or (u16 body) (malformed "truncated legacy_version")
  reject_if (not (version / 2 ^ 8 == 0x03)) (malformed "unsupported legacy_version")
  (_, r2) ← ok_or (bytes r1 random_len) (malformed "truncated random")
  (session_id, r3) ← ok_or (vec8 r2) (malformed "truncated legacy_session_id")
  reject_if (ltb max_session_id_len (length session_id))
      (malformed "legacy_session_id longer than 32 bytes")
  (cipher_suites, r4) ← ok_or (vec16 r3) (malformed "truncated cipher_suites")
  reject_if (is_empty cipher_suites || not (length cipher_suites % 2 == 0))
      (malformed "cipher_suites length is empty or odd")
  (compression, r5) ← ok_or (vec8 r4) (malformed "truncated legacy_compression_methods")
  reject_if (is_empty compression) (malformed "empty legacy_compression_methods")
  parse_rest r5
