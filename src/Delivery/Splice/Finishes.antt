-- ===== src/Delivery/Splice/Finishes.antt =====
-- crates/sni_router/src/delivery/splice.rs: a direction of the copy comes to an end.
use sni_router.Common.{
  ℕ, ◌+◌, ◌-◌, ◌*◌, ◌≤◌, ◌<◌, ◌≡◌, refl, ◌∙◌, List, [], ◌∷◌, ok, err, ◌==◌, ==_iff, arith, length,
  length-drop, length-take, min, max, if_cases,
}
use sni_router.Delivery.Splice.{
  Call, Flow, flow_of, Progress, ends, shutdown_write, pulled, splice_in, splice_out,
  splice_direction,
}
use sni_router.Delivery.Splice.Direction.{
  length-zero, pulled_into, pushed_out, splice_direction-IsDelivered,
}

-- Every call succeeds and moves a byte at least, if there is one.
abbrev pub AllMove : List Call → Type 0
AllMove [] = Unit
AllMove (ok n ∷ calls) = (0 < n) × AllMove calls
AllMove (err e ∷ calls) = ⊥

abbrev Finishes : Progress → Type 0
Finishes p = (flow : Flow) × (p ≡ ends (ok tt) flow)

shutdown_write-Finishes :
    (flow : Flow) (calls : List Call)
    → AllMove calls
    → 0 < length calls
    → Finishes (shutdown_write flow calls)
unfolding shutdown_write
shutdown_write-Finishes flow [] moves enough = absurd (omega (arith, enough))
shutdown_write-Finishes flow (ok n ∷ calls) moves enough = (_, refl)
shutdown_write-Finishes flow (err e ∷ calls) moves enough = absurd moves

splice_in-source :
    (chunk n : ℕ) (flow : Flow)
    → length (splice_in chunk n flow).source + length (pulled chunk n flow) ≡ length flow.source
unfolding splice_in
splice_in-source chunk n flow = omega (
  arith,
  length-drop (min (max 1 n) chunk) flow.source,
  length-take (min (max 1 n) chunk) flow.source,
)

splice_out-source : (n : ℕ) (flow : Flow) → (splice_out n flow).source ≡ flow.source
unfolding splice_out
splice_out-source n flow = refl

direction-Finishes :
    (chunk remaining : ℕ) (flow : Flow) (calls : List Call)
    → AllMove calls
    → length flow.pipe ≡ remaining
    → 2 * length flow.source + remaining + 2 ≤ length calls
    → Finishes (splice_direction chunk remaining flow calls)
unfolding splice_direction
direction-Finishes chunk remaining flow [] moves holds enough = absurd (omega (arith, enough))
direction-Finishes chunk remaining flow (err e ∷ calls) moves holds enough = absurd moves
direction-Finishes chunk remaining flow (ok n ∷ calls) (some_byte, moves) holds enough =
    let read = length (pulled chunk n flow) in
    let left = splice_in-source chunk n flow in
    if_cases Finishes (remaining == 0)
      (λ empty.
        if_cases Finishes (read == 0)
          (λ over. shutdown_write-Finishes flow calls moves (omega (arith, enough)))
          (λ more.
            direction-Finishes chunk (length (pulled chunk n flow)) (splice_in chunk n flow) calls
              moves
              (pulled_into chunk n flow
                (length-zero flow.pipe (holds ∙ (==_iff remaining 0).0 empty)))
              (ground (arith, enough, left))))
      (λ pending.
        if_cases Finishes (min n remaining == 0) (λ stuck. absurd (ground (arith, some_byte)))
          (λ moved.
            direction-Finishes chunk (remaining - min n remaining)
              (splice_out (min n remaining) flow) calls moves
              (pushed_out (min n remaining) remaining flow holds)
              (ground (arith, enough, splice_out-source (min n remaining) flow))))

-- When no system call fails and each moves a byte at least, a direction of the copy ends without an error
-- within two calls for each byte and two more, and the destination has got all the bytes.
pub splice_direction-finishes :
    (stream : List ℕ) (chunk : ℕ) (calls : List Call)
    → 0 < chunk
    → AllMove calls
    → 2 * length stream + 2 ≤ length calls
    → (flow : Flow) × (splice_direction chunk 0 (flow_of stream) calls ≡ ends (ok tt) flow)
      × (flow.sink ≡ stream)
splice_direction-finishes stream chunk calls some_room moves enough =
    let (flow, done) =
      direction-Finishes chunk 0 (flow_of stream) calls moves refl (omega (arith, enough)) in
    let (kept, all, shut) =
      rw done at (splice_direction-IsDelivered stream chunk calls some_room) in
    (flow, done, all)
