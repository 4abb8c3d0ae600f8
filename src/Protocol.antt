-- ===== src/Protocol.antt =====
-- crates/sni_router/src/protocol/mod.rs: the limits, and why a buffer is no usable ClientHello.
pub mod Reader
pub mod Utf8
pub mod Names
pub mod Seen
pub mod Hello
pub mod Payloads
pub mod Header
pub mod Record
use sni_router.Common.{ℕ, ◌+◌, ◌*◌, Option, String, List, [], ◌∷◌}
use sni_router.Lookup.Names.{NameError}
use sni_router.Lookup.Hostname.{Hostname}

abbrev pub max_record_payload : ℕ
max_record_payload = 16384

abbrev pub record_header_len : ℕ
record_header_len = 5

abbrev pub handshake_header_len : ℕ
handshake_header_len = 4

pub record HelloLimits : Type 0 where
  pub max_handshake_bytes : ℕ
  pub max_records : ℕ

abbrev pub default_limits : HelloLimits
default_limits = record { max_handshake_bytes = 32768; max_records = 32 }

unfoldable pub max_wire_bytes : HelloLimits → ℕ
max_wire_bytes limits =
    handshake_header_len + limits.max_handshake_bytes + limits.max_records * record_header_len

pub record ClientHelloInfo : Type 0 where
  pub sni : Option Hostname
  pub consumed : ℕ

pub data ParseError : Type 0 where
  incomplete not_handshake invalid_record not_client_hello too_large : ParseError
  malformed : String → ParseError
  invalid_server_name : NameError → ParseError

-- crates/sni_router/src/protocol/alert.rs
abbrev pub unrecognized_name_alert : List ℕ
unrecognized_name_alert = 0x15 ∷ 0x03 ∷ 0x03 ∷ 0x00 ∷ 0x02 ∷ 0x02 ∷ 0x70 ∷ []
