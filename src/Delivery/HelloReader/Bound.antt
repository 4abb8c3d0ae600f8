-- ===== src/Delivery/HelloReader/Bound.antt =====
-- What the reader holds, against the wire limit.
use sni_router.Common.{
  ℕ, suc, ◌+◌, ◌*◌, ◌≤◌, ◌≡◌, refl, ap, sym, ◌∙◌, Bool, true, false, List, [], ◌∷◌, ◌++◌, Option,
  Result, ok, err, arith, length, length-append, length-take, take-append-drop, append_assoc,
  append-nil, if◌then◌else◌, min, ◌==◌,
}
use sni_router.Lookup.Hostname.{Hostname}
use sni_router.Protocol.{
  HelloLimits, ClientHelloInfo, ParseError, incomplete, max_wire_bytes, record_header_len,
}
use sni_router.Protocol.Hello.{parse_client_hello_body}
use sni_router.Protocol.Record.{parse_client_hello}
use sni_router.Protocol.Record.Wire.{Fragment, frame, wire, joined}
use sni_router.Protocol.Record.RoundTrip.{Carries, parse_client_hello-Carries}
use sni_router.Delivery.HelloReader.{
  HelloReadError, Read, yields, fails, Progress, returns, remaining, chunk, unread, after_parse,
  read_loop, read_client_hello,
}
use sni_router.Delivery.HelloReader.Verdict.{AllYield, concluded, read_client_hello-verdict}

-- A returned buffer is a beginning of the stream, within the limit, and its info is its verdict.
abbrev pub IsRead : HelloLimits → List ℕ → Progress → Type 0
IsRead limits stream (returns (ok (buf, info))) =
    ((rest : List ℕ) × (buf ++ rest ≡ stream))
    × (length buf ≤ max_wire_bytes limits)
    × (parse_client_hello buf limits ≡ ok info)
IsRead limits stream _ = Unit

after_parse-IsRead :
    (limits : HelloLimits) (stream buf rest : List ℕ) (v : Result ParseError ClientHelloInfo)
    (next : Progress)
    → v ≡ parse_client_hello buf limits
    → buf ++ rest ≡ stream
    → length buf ≤ max_wire_bytes limits
    → IsRead limits stream next
    → IsRead limits stream (after_parse v buf next)
after_parse-IsRead limits stream buf rest (ok info) next v e h n = ((rest, e), h, sym v)
after_parse-IsRead limits stream buf rest (err incomplete) next v e h n = n
after_parse-IsRead limits stream buf rest (err x) next v e h n = tt

if-IsRead :
    (limits : HelloLimits) (stream : List ℕ) (b : Bool) (x : HelloReadError) (next : Progress)
    → IsRead limits stream next
    → IsRead limits stream (if b then returns (err x) else next)
if-IsRead limits stream true x next h = tt
if-IsRead limits stream false x next h = h

read_loop-IsRead :
    (limits : HelloLimits) (buf stream whole : List ℕ) (reads : List Read)
    → buf ++ stream ≡ whole
    → length buf ≤ max_wire_bytes limits
    → IsRead limits whole (read_loop limits buf stream reads)
unfolding read_loop
read_loop-IsRead limits buf stream whole [] e h = by_room (remaining limits buf == 0)
  where
    by_room :
        (b : Bool)
        → IsRead limits whole (
            if b then returns (err (HelloReadError.parse ParseError.too_large)) else Progress.waits)
    by_room true = tt
    by_room false = tt
read_loop-IsRead limits buf stream whole (fails ∷ reads) e h =
    if-IsRead limits whole (remaining limits buf == 0) _ _ tt
read_loop-IsRead limits buf stream whole (yields size ∷ reads) e h =
    let buf' = buf ++ chunk limits buf stream size in
    let left = unread limits buf stream size in
    let joined_again : buf' ++ left ≡ whole =
      append_assoc buf (chunk limits buf stream size) left
      ∙ ap (◌++◌ buf) (take-append-drop (min (suc size) (remaining limits buf)) stream)
      ∙ e in
    let small : length buf' ≤ max_wire_bytes limits = omega (
      arith,
      length-append buf (chunk limits buf stream size),
      length-take (min (suc size) (remaining limits buf)) stream,
    ) in
    if-IsRead limits whole (remaining limits buf == 0) _ _ (
      if-IsRead limits whole (length (chunk limits buf stream size) == 0) _ _ (
        after_parse-IsRead limits whole buf' left (parse_client_hello buf' limits) _ refl
          joined_again small (read_loop-IsRead limits buf' left whole reads joined_again small)))

-- For every schedule, failing reads included: what the reader returns is a beginning of the stream
-- that stays within the wire limit and parses to the info that is returned.
pub read_client_hello-IsRead :
    (limits : HelloLimits) (stream : List ℕ) (reads : List Read)
    → IsRead limits stream (read_client_hello limits stream reads)
unfolding read_client_hello
read_client_hello-IsRead limits stream reads =
    read_loop-IsRead limits [] stream stream reads refl (omega arith)

length-wire :
    (fs : List Fragment) → length (wire fs) ≡ length (joined fs) + length fs * record_header_len
length-wire [] = omega arith
length-wire (f ∷ fs) =
    omega (
      arith,
      length-wire fs,
      length-append (frame f) (wire fs),
      length-append f.payload (joined fs),
    )

-- The records that carry a ClientHello within the limits, and nothing else, fit the wire limit.
pub Carries-le-max_wire_bytes :
    (limits : HelloLimits) (body : List ℕ) (fs : List Fragment)
    → Carries limits body fs
    → length (wire fs) ≤ max_wire_bytes limits
unfolding max_wire_bytes
Carries-le-max_wire_bytes limits body fs c =
    let size = ap length c.message in omega (arith, length-wire fs, c.records, c.within)

-- Every ClientHello within the limits is read, however the network splits its bytes: the reader returns
-- a beginning of the stream that has all its records, and the name that the body holds.
pub read_client_hello-Carries :
    (limits : HelloLimits) (body : List ℕ) (fs : List Fragment) (q : List ℕ) (sni : Option Hostname)
    (reads : List Read)
    → Carries limits body fs
    → parse_client_hello_body body ≡ ok sni
    → length (wire fs) ≤ length reads
    → AllYield reads
    → (b : List ℕ) × (rest : List ℕ) × (b ++ rest ≡ wire fs ++ q)
      × (read_client_hello limits (wire fs ++ q) reads
          ≡ returns (ok (b, record { sni = sni; consumed = length (wire fs) })))
read_client_hello-Carries limits body fs q sni reads c h enough y =
    let parsed : parse_client_hello (wire fs) limits
        ≡ ok (record { sni = sni; consumed = length (wire fs) }) =
      rw append-nil at (parse_client_hello-Carries limits body fs [] sni c h) in
    let (b, rest, e, r) =
      read_client_hello-verdict limits (wire fs) q reads (λ unfinished. cc)
        (Carries-le-max_wire_bytes limits body fs c) enough y in
    (b, rest, e, r ∙ ap (λ v. concluded v b) parsed)
