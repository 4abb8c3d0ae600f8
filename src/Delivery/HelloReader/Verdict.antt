-- ===== src/Delivery/HelloReader/Verdict.antt =====
-- The verdict on a ClientHello does not depend on how its bytes are split into reads.
use sni_router.Common.{
  ℕ, suc, ◌+◌, ◌≤◌, ◌<◌, ◌≡◌, ◌≢◌, refl, ap, ◌∙◌, false, List, [], ◌∷◌, ◌++◌, Result, ok, err,
  arith, length, length-append, length-take, take-append-drop, append_assoc, min, ◌==◌, ne→==, ltb,
  ltb→lt, ltb→le, Bool-cases, inl, inr,
}
use sni_router.Protocol.{HelloLimits, ClientHelloInfo, ParseError, incomplete, max_wire_bytes}
use sni_router.Protocol.Header.{check_partial_record_header}
use sni_router.Protocol.Record.{parse_client_hello, scan_records, scan, round}
use sni_router.Delivery.HelloReader.{
  parse, Read, yields, Progress, returns, remaining, chunk, unread, read_loop, after_parse,
  read_client_hello,
}
use sni_router.Delivery.HelloReader.Beginnings.{definite_or_not, same_verdict, longer_definite}

-- How the reader ends on a verdict other than `incomplete`.
abbrev pub concluded : Result ParseError ClientHelloInfo → List ℕ → Progress
concluded (ok info) buf = returns (ok (buf, info))
concluded (err e) buf = returns (err (parse e))

-- No read fails.
abbrev pub AllYield : List Read → Type 0
AllYield [] = Unit
AllYield (yields size ∷ reads) = AllYield reads
AllYield (_ ∷ reads) = ⊥

after_parse-concluded :
    (v : Result ParseError ClientHelloInfo) (buf : List ℕ) (next : Progress)
    → v ≢ err incomplete
    → after_parse v buf next ≡ concluded v buf
after_parse-concluded (ok info) buf next h = refl
after_parse-concluded (err incomplete) buf next h = absurd (h refl)
after_parse-concluded (err e) buf next h = refl

read_loop_step :
    (limits : HelloLimits) (buf stream : List ℕ) (size : ℕ) (reads : List Read)
    → 0 < remaining limits buf
    → 0 < length (chunk limits buf stream size)
    → read_loop limits buf stream (yields size ∷ reads)
      ≡ after_parse
          (parse_client_hello (buf ++ chunk limits buf stream size) limits)
          (buf ++ chunk limits buf stream size)
          (read_loop limits
            (buf ++ chunk limits buf stream size)
            (unread limits buf stream size)
            reads)
unfolding read_loop
read_loop_step limits buf stream size reads room some_bytes =
    let r : (remaining limits buf == 0) ≡ false = ne→== _ _ (omega arith) in
    let c : (length (chunk limits buf stream size) == 0) ≡ false = ne→== _ _ (omega arith) in
    rw (r, c, read_loop)

-- What the reader must find: a beginning `p` of the stream that has a verdict and fits the limit.
record Waiting (limits : HelloLimits) (buf stream p q : List ℕ) (reads : List Read) : Type 0 where
  whole : buf ++ stream ≡ p ++ q
  verdict : parse_client_hello p limits ≢ err incomplete
  behind : length buf < length p
  fits : length p ≤ max_wire_bytes limits
  enough : length p ≤ length buf + length reads
  yielding : AllYield reads

module _ {limits : HelloLimits} {buf stream p q : List ℕ} {size : ℕ} {reads : List Read}
    (w : Waiting limits buf stream p q (yields size ∷ reads)) where
  stream_left : length p ≤ length buf + length stream
  stream_left =
      let e = ap length w.whole in omega (arith, length-append buf stream, length-append p q)

  some_chunk : 0 < length (chunk limits buf stream size)
  some_chunk = omega (
    arith,
    w.behind,
    w.fits,
    stream_left,
    length-take (min (suc size) (remaining limits buf)) stream,
  )

  rejoined : (buf ++ chunk limits buf stream size) ++ unread limits buf stream size ≡ p ++ q
  rejoined =
      append_assoc buf (chunk limits buf stream size) (unread limits buf stream size)
      ∙ ap (◌++◌ buf) (take-append-drop (min (suc size) (remaining limits buf)) stream)
      ∙ w.whole

  Waiting-next :
      parse_client_hello (buf ++ chunk limits buf stream size) limits ≡ err incomplete
      → Waiting limits
          (buf ++ chunk limits buf stream size)
          (unread limits buf stream size)
          p
          q
          reads
  Waiting-next h = record {
    whole = rejoined;
    verdict = w.verdict;
    behind = elim (Bool-cases (ltb (length (buf ++ chunk limits buf stream size)) (length p))) [
      | inl lt ↦ ltb→lt _ _ lt
      | inr ge ↦ absurd (
          longer_definite limits (buf ++ chunk limits buf stream size) p
            (unread limits buf stream size) q rejoined (ltb→le _ _ ge) w.verdict h)
    ];
    fits = w.fits;
    enough = omega (arith, w.enough, some_chunk, length-append buf (chunk limits buf stream size));
    yielding = w.yielding;
  }

read_loop-verdict :
    (limits : HelloLimits) (buf stream p q : List ℕ) (reads : List Read)
    → Waiting limits buf stream p q reads
    → (b : List ℕ) × (rest : List ℕ) × (b ++ rest ≡ p ++ q)
      × (read_loop limits buf stream reads ≡ concluded (parse_client_hello p limits) b)
read_loop-verdict limits buf stream p q [] w = absurd (omega (arith, w.behind, w.enough))
read_loop-verdict limits buf stream p q (yields size ∷ reads) w =
    let buf' = buf ++ chunk limits buf stream size in
    let left = unread limits buf stream size in
    let step =
      read_loop_step limits buf stream size reads (omega (arith, w.behind, w.fits))
        (some_chunk w) in
    elim (definite_or_not (parse_client_hello buf' limits)) [
      | inl unfinished ↦
          let (b, rest, e, h) =
            read_loop-verdict limits buf' left p q reads (Waiting-next w unfinished) in
          (
            b,
            rest,
            e,
            step ∙ ap (λ v. after_parse v buf' (read_loop limits buf' left reads)) unfinished ∙ h,
          )
      | inr definite ↦ (
        buf',
        left,
        rejoined w,
        step
            ∙ after_parse-concluded (parse_client_hello buf' limits) buf'
                (read_loop limits buf' left reads) definite
            ∙ ap (λ v. concluded v buf')
                (same_verdict limits buf' p left q (rejoined w) definite w.verdict),
      )
    ]
read_loop-verdict limits buf stream p q (_ ∷ reads) w = absurd w.yielding

-- No bytes, no verdict.
parse_nil : (limits : HelloLimits) → parse_client_hello [] limits ≡ err incomplete
unfolding parse_client_hello scan_records scan round check_partial_record_header
parse_nil limits = refl

-- If a beginning of the stream that fits the wire limit has a verdict, the reader ends with that
-- verdict, for every schedule of enough reads. On success it returns a beginning of the stream.
pub read_client_hello-verdict :
    (limits : HelloLimits) (p q : List ℕ) (reads : List Read)
    → parse_client_hello p limits ≢ err incomplete
    → length p ≤ max_wire_bytes limits
    → length p ≤ length reads
    → AllYield reads
    → (b : List ℕ) × (rest : List ℕ) × (b ++ rest ≡ p ++ q)
      × (read_client_hello limits (p ++ q) reads ≡ concluded (parse_client_hello p limits) b)
unfolding read_client_hello
read_client_hello-verdict limits [] q reads v f e y = absurd (v (parse_nil limits))
read_client_hello-verdict limits (c ∷ p) q reads v f e y =
    read_loop-verdict limits [] ((c ∷ p) ++ q) (c ∷ p) q reads (record {
      whole = refl;
      verdict = v;
      behind = omega arith;
      fits = f;
      enough = omega arith;
      yielding = y;
    })
