-- ===== src/Protocol/Header/Stream.antt =====
-- The handshake header that is fed record by record is the front of the joined payloads.
use sni_router.Common.{
  ℕ, ◌+◌, ◌-◌, ◌*◌, ◌≡◌, refl, sym, List, [], ◌∷◌, ◌++◌, Option, none, some, Result, ok, err, arith,
  length, take, take-append, length-take, set, min, ltb, ◌==◌, if◌then◌else◌, not,
}
use sni_router.Protocol.{HelloLimits, ParseError, not_client_hello, too_large, handshake_header_len}
use sni_router.Protocol.Header.{
  HandshakeHeader, new, feed, check_header, observe, handshake_type_client_hello,
}

-- What the first bytes of the handshake message declare.
abbrev pub declared_len : HelloLimits → ℕ → Result ParseError (Option ℕ)
declared_len limits len =
    if ltb limits.max_handshake_bytes len then err too_large else ok (some len)

abbrev declared_tail : HelloLimits → List ℕ → Result ParseError (Option ℕ)
declared_tail limits (high ∷ mid ∷ low ∷ _) = declared_len limits (high * 65536 + mid * 256 + low)
declared_tail limits _ = ok none

abbrev pub declared : HelloLimits → List ℕ → Result ParseError (Option ℕ)
declared limits [] = ok none
declared limits (kind ∷ rest) =
    if not (kind == handshake_type_client_hello)
    then err not_client_hello
    else declared_tail limits rest

-- The header once the bytes have been seen.
pub header_of : List ℕ → HandshakeHeader
header_of message = feed new (take handshake_header_len message)

feed-append : (h : HandshakeHeader) (a b : List ℕ) → feed h (a ++ b) ≡ feed (feed h a) b
unfolding feed
feed-append h [] b = refl
feed-append h (x ∷ a) b =
    feed-append (record { bytes = set h.bytes h.known x; known = h.known + 1 }) a b

known-feed : (h : HandshakeHeader) (a : List ℕ) → (feed h a).known ≡ h.known + length a
unfolding feed
known-feed h [] = omega arith
known-feed h (x ∷ a) =
    omega (arith, known-feed (record { bytes = set h.bytes h.known x; known = h.known + 1 }) a)

pub header_of-nil : header_of [] ≡ new
unfolding header_of feed
header_of-nil = refl

check_header-header_of :
    (limits : HelloLimits) (message : List ℕ)
    → check_header limits (header_of message) ≡ declared limits message
unfolding check_header header_of feed new
check_header-header_of limits [] = refl
check_header-header_of limits (a ∷ []) = ground arith
check_header-header_of limits (a ∷ b ∷ []) = ground arith
check_header-header_of limits (a ∷ b ∷ c ∷ []) = ground arith
check_header-header_of limits (a ∷ b ∷ c ∷ d ∷ rest) = ground arith

known-header_of : (message : List ℕ) → (header_of message).known ≡ min 4 (length message)
unfolding header_of new
known-header_of message = omega (arith, known-feed new (take 4 message), length-take 4 message)

header_of-append :
    (seen payload : List ℕ)
    → feed (header_of seen) (take (handshake_header_len - (header_of seen).known) payload)
      ≡ header_of (seen ++ payload)
header_of-append seen payload =
    let e : handshake_header_len - (header_of seen).known ≡ 4 - length seen =
      omega (arith, known-header_of seen) in
    rw e (
      unfold header_of in
      rw (take-append 4 seen payload)
        (sym (feed-append new (take 4 seen) (take (4 - length seen) payload))))

-- Feeding one more payload is reading the front of the longer message.
pub observe-header_of :
    (limits : HelloLimits) (seen payload : List ℕ)
    → observe (header_of seen) payload limits
      ≡ (header_of (seen ++ payload), declared limits (seen ++ payload))
unfolding observe
observe-header_of limits seen payload =
    rw (header_of-append seen payload, check_header-header_of limits (seen ++ payload))
