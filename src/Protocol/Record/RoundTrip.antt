-- ===== src/Protocol/Record/RoundTrip.antt =====
-- From the fields of a ClientHello to the wire and back.
use sni_router.Common.{
  ℕ, ◌+◌, ◌*◌, ◌/◌, ◌%◌, ◌≤◌, ◌≡◌, ◌∙◌, List, ◌∷◌, ◌++◌, Option, some, ok, arith, length, take_all,
  le→ltb,
}
use sni_router.Lookup.Hostname.{Hostname}
use sni_router.Protocol.{HelloLimits}
use sni_router.Protocol.Header.Stream.{declared}
use sni_router.Protocol.Hello.{parse_client_hello_body}
use sni_router.Protocol.Record.{parse_client_hello}
use sni_router.Protocol.Record.Wire.{Fragment, wire, joined, AllFragments, CompletesAt, IsFraming}
use sni_router.Protocol.Record.Parse.{body_of, parse_client_hello-wire}

-- The handshake message of a ClientHello: its type, the length in three bytes, and the body.
abbrev pub put_message : List ℕ → List ℕ
put_message body = 0x01 ∷ length body / 65536 ∷ length body / 256 % 256 ∷ length body % 256 ∷ body

-- The records carry the message, are in range, and end with the record that completes it.
pub record Carries (limits : HelloLimits) (body : List ℕ) (fs : List Fragment) : Type 0 where
  pub message : joined fs ≡ put_message body
  pub fragments : AllFragments fs
  pub records : length fs ≤ limits.max_records
  pub within : length body ≤ limits.max_handshake_bytes
  pub completes : CompletesAt 0 (4 + length body) fs

declared-put_message :
    (limits : HelloLimits) (body : List ℕ)
    → length body ≤ limits.max_handshake_bytes
    → declared limits (put_message body) ≡ ok (some (length body))
declared-put_message limits body h =
    let whole : length body / 65536 * 65536 + length body / 256 % 256 * 256 + length body % 256
        ≡ length body =
      omega arith in
    rw (whole, le→ltb limits.max_handshake_bytes (length body) h)

Carries-IsFraming :
    (limits : HelloLimits) (body : List ℕ) (fs : List Fragment)
    → Carries limits body fs
    → IsFraming limits (length body) fs
Carries-IsFraming limits body fs c = record {
  fragments = c.fragments;
  records = c.records;
  declares = rw c.message (declared-put_message limits body c.within);
  completes = c.completes;
}

body_of-Carries :
    (limits : HelloLimits) (body : List ℕ) (fs : List Fragment)
    → Carries limits body fs
    → body_of (length body) fs ≡ body
body_of-Carries limits body fs c =
    rw (c.message, take_all (4 + length body) (put_message body) (omega arith))

-- When the body is accepted and the records are within the limits, parsing the records yields the name of the
-- body and consumes exactly the records.
pub parse_client_hello-Carries :
    (limits : HelloLimits) (body : List ℕ) (fs : List Fragment) (rest : List ℕ)
    (sni : Option Hostname)
    → Carries limits body fs
    → parse_client_hello_body body ≡ ok sni
    → parse_client_hello (wire fs ++ rest) limits
      ≡ ok (record { sni = sni; consumed = length (wire fs) })
parse_client_hello-Carries limits body fs rest sni c h =
    parse_client_hello-wire limits (length body) fs rest (Carries-IsFraming limits body fs c)
    ∙ rw (body_of-Carries limits body fs c, h)
