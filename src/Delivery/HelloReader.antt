-- ===== src/Delivery/HelloReader.antt =====
-- crates/sni_router/src/delivery/hello_reader.rs. The client's stream is the bytes that it sends
-- before it closes; how many of them each read yields is up to the network, which a schedule gives.
pub mod Beginnings
pub mod Verdict
pub mod Bound
use sni_router.Common.{
  ℕ, suc, ◌-◌, ◌≡◌, Bool, true, false, List, [], ◌∷◌, ◌++◌, Result, ok, err, length, take, drop,
  min, ◌==◌, if◌then◌else◌,
}
use sni_router.Protocol.{
  HelloLimits, ClientHelloInfo, ParseError, incomplete, too_large, max_wire_bytes,
}
use sni_router.Protocol.Record.{parse_client_hello}

pub data HelloReadError : Type 0 where
  closed io : HelloReadError
  parse : ParseError → HelloReadError

-- A read yields up to so many bytes, and one more, or fails.
pub data Read : Type 0 where
  yields : ℕ → Read
  fails : Read

-- The reader returns, or waits for a read that the schedule no longer has.
pub data Progress : Type 0 where
  returns : Result HelloReadError (List ℕ × ClientHelloInfo) → Progress
  waits : Progress

abbrev pub remaining : HelloLimits → List ℕ → ℕ
remaining limits buf = max_wire_bytes limits - length buf

-- What a read that yields may take: the stream is cut at the bytes that remain of the limit.
abbrev pub chunk : HelloLimits → List ℕ → List ℕ → ℕ → List ℕ
chunk limits buf stream size = take (min (suc size) (remaining limits buf)) stream

abbrev pub unread : HelloLimits → List ℕ → List ℕ → ℕ → List ℕ
unread limits buf stream size = drop (min (suc size) (remaining limits buf)) stream

-- The `match` on the verdict: `next` is what the loop does when it continues.
abbrev pub after_parse : Result ParseError ClientHelloInfo → List ℕ → Progress → Progress
after_parse (ok info) buf next = returns (ok (buf, info))
after_parse (err incomplete) buf next = next
after_parse (err e) buf next = returns (err (parse e))

unfoldable pub read_loop : HelloLimits → List ℕ → List ℕ → List Read → Progress
read_loop limits buf stream [] =
    if remaining limits buf == 0 then returns (err (parse too_large)) else waits
read_loop limits buf stream (fails ∷ reads) =
    if remaining limits buf == 0 then returns (err (parse too_large)) else returns (err io)
read_loop limits buf stream (yields size ∷ reads) =
    let buf' = buf ++ chunk limits buf stream size in
    let next = read_loop limits buf' (unread limits buf stream size) reads in
    if remaining limits buf == 0
    then returns (err (parse too_large))
    else if length (chunk limits buf stream size) == 0
    then returns (err closed)
    else after_parse (parse_client_hello buf' limits) buf' next

unfoldable pub read_client_hello : HelloLimits → List ℕ → List Read → Progress
unfolding read_loop
read_client_hello limits stream reads = read_loop limits [] stream reads
