-- ===== src/Protocol/Record.antt =====
-- crates/sni_router/src/protocol/record.rs: the walk over the records, and the reassembly of the
-- handshake message.
pub mod Wire
pub mod Rounds
pub mod Gather
pub mod Behind
pub mod Framing
pub mod Passes
pub mod Sound
pub mod Parse
pub mod Growing
pub mod Prefix
pub mod Total
pub mod RoundTrip
use sni_router.Common.{
  ℕ, zero, suc, ◌+◌, ◌-◌, ◌≡◌, Bool, true, false, ◌&&◌, List, [], ◌∷◌, ◌++◌, Option, none, some,
  Result, ok, err, ◌>>=◌, ◌>>◌, reject_if, length, take, drop, slice, ltb, leb, ◌==◌, if◌then◌else◌,
  min,
}
use sni_router.Lookup.Hostname.{Hostname}
use sni_router.Protocol.{
  HelloLimits, ClientHelloInfo, ParseError, incomplete, too_large, record_header_len,
  handshake_header_len,
}
use sni_router.Protocol.Payloads
use sni_router.Protocol.Payloads.{Payloads, Range, range_len}
use sni_router.Protocol.Header
use sni_router.Protocol.Header.{
  HandshakeHeader, check_partial_record_header, check_record_header, observe,
}
use sni_router.Protocol.Hello.{parse_client_hello_body}

pub record RecordLayout : Type 0 where
  pub payloads : Payloads
  pub handshake_len : ℕ
  pub consumed : ℕ

-- The variables of the loop of `scan_records`.
pub record Walk : Type 0 where
  pub offset : ℕ
  pub payloads : Payloads
  pub header : HandshakeHeader
  pub payload_total : ℕ

unfoldable pub start : Walk
start = record { offset = 0; payloads = Payloads.new; header = Header.new; payload_total = 0 }

-- A round ends with the layout, or goes on to the next record.
pub data Round : Type 0 where
  done : RecordLayout → Round
  more : Walk → Round

-- `payload_total >= HANDSHAKE_HEADER_LEN + handshake_len`, once the length is known.
abbrev is_complete : Option ℕ → ℕ → Bool
is_complete none total = false
is_complete (some len) total = leb (handshake_header_len + len) total

abbrev length_or_zero : Option ℕ → ℕ
length_or_zero none = 0
length_or_zero (some len) = len

-- The end of a round: the record's payload is all there.
unfoldable pub take_record : Walk → HandshakeHeader → Option ℕ → ℕ → Round
take_record w header handshake_len payload_len =
    let payload_start = w.offset + record_header_len in
    let payload_end = payload_start + payload_len in
    let payloads =
      Payloads.push w.payloads (record { start = payload_start; stop = payload_end }) in
    let payload_total = w.payload_total + payload_len in
    if is_complete handshake_len payload_total
    then done (record {
      payloads = payloads;
      handshake_len = length_or_zero handshake_len;
      consumed = payload_end;
    })
    else more (record {
      offset = payload_end;
      payloads = payloads;
      header = header;
      payload_total = payload_total;
    })

-- The round behind a full record header: `rest` is `buf[offset..]`.
unfoldable pub read_payload : HelloLimits → Walk → List ℕ → ℕ → Result ParseError Round
unfolding take_record
read_payload limits w rest payload_len = do
  reject_if (Payloads.len w.payloads == limits.max_records) too_large
  let available = take payload_len (drop record_header_len rest)
  let (header, observed) = observe w.header available limits
  handshake_len ← observed
  reject_if (ltb (length available) payload_len) incomplete
  ok (take_record w header handshake_len payload_len)

unfoldable pub round : HelloLimits → Walk → List ℕ → Result ParseError Round
unfolding read_payload
round limits w rest =
    if ltb (length rest) record_header_len
    then (do check_partial_record_header rest (w.offset == 0); err incomplete)
    else do
      payload_len ← check_record_header (take record_header_len rest) (w.offset == 0)
      read_payload limits w rest payload_len

-- The loop, with fuel. A round that goes on has passed a record header, so that fuel above the
-- length of the buffer is enough: the last round finds the header incomplete.
unfoldable pub scan : ℕ → HelloLimits → List ℕ → Walk → Result ParseError RecordLayout
scan zero limits buf w = err incomplete
scan (suc fuel) limits buf w = elim (round limits w (drop w.offset buf)) [
  | err e ↦ err e
  | ok (done layout) ↦ ok layout
  | ok (more w') ↦ scan fuel limits buf w'
]

unfoldable pub scan_records : List ℕ → HelloLimits → Result ParseError RecordLayout
unfolding start
scan_records buf limits = scan (suc (length buf)) limits buf start

-- The loop that copies the fragments.
unfoldable pub gather : List ℕ → ℕ → List ℕ → List Range → List ℕ
gather buf message_len message [] = message
gather buf message_len message (fragment ∷ rest) =
    let taken = min (message_len - length message) (range_len fragment) in
    gather buf message_len (message ++ slice fragment.start (fragment.start + taken) buf) rest

-- The bytes of the ClientHello body: of one record without a copy, of several gathered.
unfoldable pub body_bytes : List ℕ → ℕ → List Range → List ℕ
unfolding gather
body_bytes buf message_len (only ∷ []) =
    slice (only.start + handshake_header_len) (only.start + message_len) buf
body_bytes buf message_len fragments =
    drop handshake_header_len (gather buf message_len [] fragments)

unfoldable pub parse_client_hello : List ℕ → HelloLimits → Result ParseError ClientHelloInfo
unfolding body_bytes
parse_client_hello buf limits = do
  layout ← scan_records buf limits
  let message_len = handshake_header_len + layout.handshake_len
  sni ← parse_client_hello_body (body_bytes buf message_len (Payloads.as_slice layout.payloads))
  ok (record { sni = sni; consumed = layout.consumed })
