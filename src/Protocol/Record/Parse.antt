-- ===== src/Protocol/Record/Parse.antt =====
-- `parse_client_hello` against its specification: the records hold a ClientHello whose body parses.
use sni_router.Common.{
  ℕ, ◌+◌, ◌≤◌, ◌≡◌, ap, sym, ◌∙◌, List, [], ◌∷◌, ◌++◌, ok, ◌>>=◌, arith, length, length-append,
  take, drop, >>=-eq-ok,
}
use sni_router.Protocol.{HelloLimits, ClientHelloInfo, handshake_header_len}
use sni_router.Protocol.Hello.{parse_client_hello_body}
use sni_router.Protocol.Record.{scan_records, parse_client_hello}
use sni_router.Protocol.Record.Wire.{Fragment, wire, joined, CompletesAt, IsFraming}
use sni_router.Protocol.Record.Framing.{scan_records_complete}
use sni_router.Protocol.Record.Sound.{scan_records_sound}
use sni_router.Protocol.Record.Gather.{body_bytes-joined}

-- The body of the ClientHello that the records hold.
abbrev pub body_of : ℕ → List Fragment → List ℕ
body_of n fs = drop handshake_header_len (take (handshake_header_len + n) (joined fs))

CompletesAt-le :
    (total need : ℕ) (fs : List Fragment)
    → CompletesAt total need fs
    → need ≤ total + length (joined fs)
CompletesAt-le total need [] h = absurd h
CompletesAt-le total need (f ∷ []) h = omega (arith, length-append f.payload [])
CompletesAt-le total need (f ∷ g ∷ fs) h = omega (
  arith,
  CompletesAt-le (total + length f.payload) need (g ∷ fs) h.1,
  length-append f.payload (joined (g ∷ fs)),
)

-- However a ClientHello is cut into records that are, with its message, within the limits, and whatever follows
-- them, parsing the buffer is parsing the body; the bytes consumed are those of the records.
pub parse_client_hello-wire :
    (limits : HelloLimits) (n : ℕ) (fs : List Fragment) (rest : List ℕ)
    → IsFraming limits n fs
    → parse_client_hello (wire fs ++ rest) limits ≡ (do
      sni ← parse_client_hello_body (body_of n fs)
      ok (record { sni = sni; consumed = length (wire fs) }))
unfolding parse_client_hello
parse_client_hello-wire limits n fs rest h =
    let (layout, found, l) = scan_records_complete limits n fs rest h in
    rw (
      found,
      l.slice,
      l.handshake_len,
      l.consumed,
      body_bytes-joined n fs rest (omega (arith, CompletesAt-le 0 (4 + n) fs h.completes)),
    )

-- A ClientHello is accepted only from such records, and its name is the one in the joined body.
pub parse_client_hello_sound :
    (limits : HelloLimits) (buf : List ℕ) (info : ClientHelloInfo)
    → parse_client_hello buf limits ≡ ok info
    → (n : ℕ) × (fs : List Fragment) × (rest : List ℕ) × (buf ≡ wire fs ++ rest)
      × IsFraming limits n fs
      × (parse_client_hello_body (body_of n fs) ≡ ok info.sni)
      × (info.consumed ≡ length (wire fs))
unfolding parse_client_hello
parse_client_hello_sound limits buf info h =
    let (layout, scanned, _) = >>=-eq-ok (scan_records buf limits) _ h in
    let (n, fs, rest, e, framing, _) = scan_records_sound limits buf layout scanned in
    let (sni, parsed, same) = >>=-eq-ok (parse_client_hello_body (body_of n fs)) _ (
      sym (parse_client_hello-wire limits n fs rest framing)
      ∙ ap (λ b. parse_client_hello b limits) (sym e)
      ∙ h) in
    (n, fs, rest, e, framing, cc, cc)
