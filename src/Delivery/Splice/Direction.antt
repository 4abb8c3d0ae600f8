-- ===== src/Delivery/Splice/Direction.antt =====
-- crates/sni_router/src/delivery/splice.rs: what a direction of the copy delivers.
use sni_router.Common.{
  ℕ, ◌+◌, ◌-◌, ◌≤◌, ◌<◌, ◌≡◌, refl, sym, ap, ◌∙◌, true, List, [], ◌∷◌, ◌++◌, ok, err, ◌==◌, ==_iff,
  arith, length, length-append, length-take, length-take_le, length-drop, take-append-drop,
  append_assoc, append-nil, take, drop, min, max, if_cases,
}
use sni_router.Delivery.Splice.{
  interrupted, not_connected, write_zero, other, Call, Flow, flow_of, Progress, ends, waits,
  shutdown_write, pulled, splice_in, splice_out, splice_direction,
}

unfoldable pub sum : List ℕ → ℕ
sum [] = 0
sum (n ∷ ns) = n + sum ns

-- The bytes go through in order: those that the destination got, then those in the pipe, then those still
-- to come, are what the source sent; the amounts reported are those moved; and the pipe holds no more than
-- its capacity.
pub record IsFlow (stream : List ℕ) (chunk : ℕ) (flow : Flow) : Type 0 where
  pub in_order : flow.sink ++ flow.pipe ++ flow.source ≡ stream
  pub read : sum flow.reads ≡ length (flow.sink ++ flow.pipe)
  pub written : sum flow.writes ≡ length flow.sink
  pub fits : length flow.pipe ≤ chunk

splice_in-IsFlow :
    (stream : List ℕ) (chunk n : ℕ) (flow : Flow)
    → flow.pipe ≡ []
    → IsFlow stream chunk flow
    → IsFlow stream chunk (splice_in chunk n flow)
unfolding splice_in sum
splice_in-IsFlow stream chunk n flow drained i =
    let got = pulled chunk n flow in
    let whole = take-append-drop (min (max 1 n) chunk) flow.source in
    record {
      in_order =
          ap (λ front. front ++ drop (min (max 1 n) chunk) flow.source)
            (sym (append_assoc flow.sink flow.pipe got))
          ∙ append_assoc (flow.sink ++ flow.pipe) got _
          ∙ ap (λ rest. flow.sink ++ flow.pipe ++ rest) whole
          ∙ i.in_order;
      read = omega (
        arith,
        i.read,
        length-append flow.sink flow.pipe,
        length-append flow.sink (flow.pipe ++ got),
        length-append flow.pipe got,
      );
      written = i.written;
      fits = rw drained (omega (arith, length-take (min (max 1 n) chunk) flow.source));
    }

splice_out-IsFlow :
    (stream : List ℕ) (chunk n : ℕ) (flow : Flow)
    → n ≤ length flow.pipe
    → IsFlow stream chunk flow
    → IsFlow stream chunk (splice_out n flow)
unfolding splice_out sum
splice_out-IsFlow stream chunk n flow enough i =
    let whole = take-append-drop n flow.pipe in
    record {
      in_order =
          ap (λ front. front ++ flow.source)
            (append_assoc flow.sink (take n flow.pipe) (drop n flow.pipe)
              ∙ ap (λ p. flow.sink ++ p) whole)
          ∙ i.in_order;
      read =
          i.read
          ∙ ap length (
              ap (λ p. flow.sink ++ p) (sym whole)
              ∙ sym (append_assoc flow.sink (take n flow.pipe) (drop n flow.pipe)));
      written = omega (
        arith,
        i.written,
        length-append flow.sink (take n flow.pipe),
        length-take_le n flow.pipe enough,
      );
      fits = omega (arith, i.fits, length-drop n flow.pipe);
    }

-- What a direction leaves, however it ends. When it ends without an error, the destination has got all that
-- the source sent, and its write half is shut or was found shut already.
abbrev pub IsDelivered : List ℕ → ℕ → Progress → Type 0
IsDelivered stream chunk (waits flow) = IsFlow stream chunk flow
IsDelivered stream chunk (ends (err e) flow) = IsFlow stream chunk flow
IsDelivered stream chunk (ends (ok done) flow) =
    IsFlow stream chunk flow × (flow.sink ≡ stream) × (flow.shut ≡ true)

shut-IsFlow :
    (stream : List ℕ) (chunk : ℕ) (flow : Flow)
    → IsFlow stream chunk flow
    → IsFlow stream chunk (record flow { shut = true })
shut-IsFlow stream chunk flow i = record {
  in_order = i.in_order;
  read = i.read;
  written = i.written;
  fits = i.fits;
}

shutdown_write-IsDelivered :
    (stream : List ℕ) (chunk : ℕ) (flow : Flow) (calls : List Call)
    → flow.sink ≡ stream
    → IsFlow stream chunk flow
    → IsDelivered stream chunk (shutdown_write flow calls)
unfolding shutdown_write
shutdown_write-IsDelivered stream chunk flow [] all i = i
shutdown_write-IsDelivered stream chunk flow (ok n ∷ calls) all i =
    (shut-IsFlow stream chunk flow i, all, refl)
shutdown_write-IsDelivered stream chunk flow (err interrupted ∷ calls) all i =
    shutdown_write-IsDelivered stream chunk flow calls all i
shutdown_write-IsDelivered stream chunk flow (err not_connected ∷ calls) all i =
    (shut-IsFlow stream chunk flow i, all, refl)
shutdown_write-IsDelivered stream chunk flow (err write_zero ∷ calls) all i = i
shutdown_write-IsDelivered stream chunk flow (err (other e) ∷ calls) all i = i

pub length-zero : (xs : List ℕ) → length xs ≡ 0 → xs ≡ []
length-zero [] h = refl
length-zero (x ∷ xs) h = absurd (omega (arith, h))

pub pulled_into :
    (chunk n : ℕ) (flow : Flow)
    → flow.pipe ≡ []
    → length (splice_in chunk n flow).pipe ≡ length (pulled chunk n flow)
unfolding splice_in
pulled_into chunk n flow drained =
    omega (arith, length-append flow.pipe (pulled chunk n flow), ap length drained)

pub pushed_out :
    (n remaining : ℕ) (flow : Flow)
    → length flow.pipe ≡ remaining
    → length (splice_out n flow).pipe ≡ remaining - n
unfolding splice_out
pushed_out n remaining flow holds = omega (arith, holds, length-drop n flow.pipe)

-- A read of nothing is the end of the source.
pub pulled-nothing :
    (chunk n : ℕ) (flow : Flow)
    → 0 < chunk
    → (length (pulled chunk n flow) == 0) ≡ true
    → flow.source ≡ []
pulled-nothing chunk n flow some_room h =
    length-zero flow.source
      (omega (arith, some_room, length-take (min (max 1 n) chunk) flow.source, (==_iff _ 0).0 h))

at_end :
    (stream : List ℕ) (chunk : ℕ) (flow : Flow)
    → flow.pipe ≡ []
    → flow.source ≡ []
    → IsFlow stream chunk flow
    → flow.sink ≡ stream
at_end stream chunk flow drained over i =
    sym (append-nil flow.sink)
    ∙ sym (append-nil (flow.sink ++ []))
    ∙ ap (λ p. flow.sink ++ p ++ []) (sym drained)
    ∙ ap (λ s. flow.sink ++ flow.pipe ++ s) (sym over)
    ∙ i.in_order

direction-IsDelivered :
    (stream : List ℕ) (chunk remaining : ℕ) (flow : Flow) (calls : List Call)
    → 0 < chunk
    → length flow.pipe ≡ remaining
    → IsFlow stream chunk flow
    → IsDelivered stream chunk (splice_direction chunk remaining flow calls)
unfolding splice_direction
direction-IsDelivered stream chunk remaining flow [] some_room holds i = i
direction-IsDelivered stream chunk remaining flow (err interrupted ∷ calls) some_room holds i =
    direction-IsDelivered stream chunk remaining flow calls some_room holds i
direction-IsDelivered stream chunk remaining flow (err not_connected ∷ calls) some_room holds i = i
direction-IsDelivered stream chunk remaining flow (err write_zero ∷ calls) some_room holds i = i
direction-IsDelivered stream chunk remaining flow (err (other e) ∷ calls) some_room holds i = i
direction-IsDelivered stream chunk remaining flow (ok n ∷ calls) some_room holds i =
    if_cases (IsDelivered stream chunk) (remaining == 0)
      (λ empty.
        let drained : flow.pipe ≡ [] =
          length-zero flow.pipe (holds ∙ (==_iff remaining 0).0 empty) in
        if_cases (IsDelivered stream chunk) (length (pulled chunk n flow) == 0)
          (λ over.
            shutdown_write-IsDelivered stream chunk flow calls
              (at_end stream chunk flow drained (pulled-nothing chunk n flow some_room over) i) i)
          (λ more.
            direction-IsDelivered stream chunk (length (pulled chunk n flow))
              (splice_in chunk n flow) calls some_room (pulled_into chunk n flow drained)
              (splice_in-IsFlow stream chunk n flow drained i)))
      (λ pending.
        if_cases (IsDelivered stream chunk) (min n remaining == 0) (λ stuck. i)
          (λ moved.
            direction-IsDelivered stream chunk (remaining - min n remaining)
              (splice_out (min n remaining) flow) calls some_room
              (pushed_out (min n remaining) remaining flow holds)
              (splice_out-IsFlow stream chunk (min n remaining) flow (omega (arith, holds)) i)))

-- For every schedule of system calls, interrupted and failing ones included, a direction of the copy moves
-- the bytes of the source in order and none twice; the amounts it reports are those that left the source
-- and those that reached the destination; the pipe never holds more than its capacity; and if the direction
-- ends without an error, the destination has got all the bytes and its write half is shut.
pub splice_direction-IsDelivered :
    (stream : List ℕ) (chunk : ℕ) (calls : List Call)
    → 0 < chunk
    → IsDelivered stream chunk (splice_direction chunk 0 (flow_of stream) calls)
unfolding sum
splice_direction-IsDelivered stream chunk calls some_room =
    direction-IsDelivered stream chunk 0 (flow_of stream) calls some_room refl
      record { in_order = refl; read = refl; written = refl; fits = omega arith }
