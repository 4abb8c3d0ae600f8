-- ===== src/Protocol/Header.antt =====
-- crates/sni_router/src/protocol/record.rs: the handshake message header, which may be split across
-- records, and the record header.
pub mod Stream
use sni_router.Common.{
  ℕ, ◌+◌, ◌-◌, ◌*◌, ◌≡◌, Bool, true, false, ◌&&◌, ◌||◌, List, [], ◌∷◌, ◌++◌, Option, none, some,
  Result, ok, err, ◌>>=◌, ◌>>◌, reject_if, length, set, take, get_elem?, replicate, ltb, leb, ◌==◌,
  if◌then◌else◌, not,
}
use sni_router.Protocol.{
  HelloLimits, ParseError, not_handshake, invalid_record, not_client_hello, too_large,
  handshake_header_len, max_record_payload,
}
use sni_router.Protocol.Reader.{byte, be16}

abbrev pub content_type_handshake : ℕ
content_type_handshake = 0x16

abbrev pub handshake_type_client_hello : ℕ
handshake_type_client_hello = 0x01

abbrev pub record_version_major : ℕ
record_version_major = 0x03

abbrev differs : Option ℕ → ℕ → Bool
differs none expected = false
differs (some b) expected = not (b == expected)

unfoldable pub check_partial_record_header : List ℕ → Bool → Result ParseError (Unit {0})
check_partial_record_header header first_record = do
  reject_if (differs (get_elem? header 0) content_type_handshake)
      (if first_record then not_handshake else invalid_record)
  reject_if (differs (get_elem? header 1) record_version_major) invalid_record

-- `u16::from_be_bytes([header[3], header[4]])`.
abbrev record_len : List ℕ → ℕ
record_len (_ ∷ _ ∷ _ ∷ high ∷ low ∷ _) = high * 256 + low
record_len _ = 0

unfoldable pub check_record_header : List ℕ → Bool → Result ParseError ℕ
unfolding check_partial_record_header
check_record_header header first_record = do
  check_partial_record_header header first_record
  let len = record_len header
  reject_if (len == 0 || ltb max_record_payload len) invalid_record
  ok len

pub record HandshakeHeader : Type 0 where
  pub bytes : List ℕ
  pub known : ℕ

unfoldable pub new : HandshakeHeader
new = record { bytes = replicate handshake_header_len 0; known = 0 }

-- The loop of `observe` over the bytes that are still wanted.
unfoldable pub feed : HandshakeHeader → List ℕ → HandshakeHeader
feed h [] = h
feed h (b ∷ bs) = feed (record { bytes = set h.bytes h.known b; known = h.known + 1 }) bs

-- `high << 16 | mid << 8 | low`: the bytes do not overlap, so that the sum is the union.
abbrev pub be24 : List ℕ → ℕ
be24 (_ ∷ high ∷ mid ∷ low ∷ _) = high * 65536 + mid * 256 + low
be24 _ = 0

unfoldable pub check_header : HelloLimits → HandshakeHeader → Result ParseError (Option ℕ)
check_header limits h =
    if leb 1 h.known && not (byte h.bytes == handshake_type_client_hello)
    then err not_client_hello
    else if ltb h.known handshake_header_len
    then ok none
    else if ltb limits.max_handshake_bytes (be24 h.bytes)
    then err too_large
    else ok (some (be24 h.bytes))

-- The header afterwards, and the declared length once all four bytes are known.
unfoldable pub observe :
    HandshakeHeader → List ℕ → HelloLimits → HandshakeHeader × Result ParseError (Option ℕ)
unfolding feed check_header
observe h payload limits =
    let h' = feed h (take (handshake_header_len - h.known) payload) in (h', check_header limits h')
