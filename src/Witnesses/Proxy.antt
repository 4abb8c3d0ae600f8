-- ===== src/Witnesses/Proxy.antt =====
-- The theorems on the proxy stage and on the server, applied to short runs.
use sni_router.Common.{ℕ, ◌≡◌, refl, Bool, true, List, [], ◌∷◌, some, ok, err, arith}
use sni_router.Lookup.Text.{contains}
use sni_router.Delivery.Metered.{
  no_bytes, last, metered, poll_read, poll_write, touch_stream, touch, new,
}
use sni_router.Delivery.Splice.{Call, Flow, interrupted, flow_of, ends, splice_direction}
use sni_router.Delivery.Splice.Finishes.{splice_direction-finishes}
use sni_router.Delivery.Splice.Copy.{IsCopied, copy_bidirectional, copy_bidirectional-IsCopied}
use sni_router.Delivery.Splice.Admission
use sni_router.Delivery.Splice.Admission.{fds_per_splice_connection, max_splice_fd_share}
use sni_router.Delivery.Splice.Admission.Budget
use sni_router.Delivery.Splice.Pipes.{prepare}
use sni_router.Delivery.Proxy.{idle_expired, idle_loop}
use sni_router.Delivery.Proxy.Idle.{
  Event, reads, writes, wakes, wakes_of, ClosesIdle, idle_expired-ClosesIdle,
}
use sni_router.Delivery.Server.{Server, serve, acquire, accept}
use sni_router.Delivery.Server.Accept.{accepts, accepts-fair}
use sni_router.Delivery.Server.Runs.{
  Run, halt, extend, acquires, ends_task, cancels, IsAccounted, Run-IsAccounted,
}
use sni_router.Delivery.Server.Runs

abbrev sent : List ℕ
sent = 1 ∷ 2 ∷ 3 ∷ []

abbrev answers : List ℕ
answers = 7 ∷ 8 ∷ []

-- The client's bytes in two pieces, with an interrupted call between; then the end, and the shutdown.
abbrev up_calls : List Call
up_calls = ok 2 ∷ err interrupted ∷ ok 2 ∷ ok 9 ∷ ok 1 ∷ ok 1 ∷ ok 0 ∷ []

abbrev down_calls : List Call
down_calls = ok 2 ∷ ok 1 ∷ []

copy_bidirectional-IsCopied_example :
    IsCopied 2 4 sent answers no_bytes
      (copy_bidirectional 2 4 sent answers up_calls down_calls no_bytes)
copy_bidirectional-IsCopied_example =
    copy_bidirectional-IsCopied 2 4 sent answers up_calls down_calls no_bytes (omega arith)
      (omega arith) (omega arith) (omega arith)

abbrev eight_calls : List Call
eight_calls = ok 1 ∷ ok 1 ∷ ok 1 ∷ ok 1 ∷ ok 1 ∷ ok 1 ∷ ok 1 ∷ ok 1 ∷ []

splice_direction-finishes_example :
    (flow : Flow) × (splice_direction 2 0 (flow_of sent) eight_calls ≡ ends (ok tt) flow)
    × (flow.sink ≡ sent)
splice_direction-finishes_example =
    splice_direction-finishes sent 2 eight_calls (omega arith)
      (
        omega arith,
        (
          omega arith,
          (
            omega arith,
            (omega arith, (omega arith, (omega arith, (omega arith, (omega arith, tt))))),
          ),
        ),
      )
      (omega arith)

-- The four ends of two pipes.
abbrev four_fds : List ℕ
four_fds = (prepare 4096 (ok (10, 11)) 65536 (ok (12, 13)) 0 []).0

abbrev one_holder : Budget.World
one_holder = record { admission = record { permits = 7 }; holders = four_fds ∷ [] }

-- Two bytes move 5 ms after the start, and the clock wakes 15 ms after it.
abbrev quiet : List Event
quiet = reads 5000003 2 ∷ writes 5900000 0 ∷ wakes 10000003 ∷ wakes 15000003 ∷ []

fires : idle_expired (λ n. true) (some 10000000) (wakes_of quiet (metered 3 (some 10000000))) ≡ true
unfolding idle_expired idle_loop wakes_of metered poll_read poll_write touch_stream touch last new
fires = refl

idle_expired-ClosesIdle_example : (t : ℕ) × (some 10000000 ≡ some t) × ClosesIdle t 3 quiet
idle_expired-ClosesIdle_example =
    idle_expired-ClosesIdle (λ n. true) 3 (some 10000000) quiet
      (
        omega arith,
        omega arith,
        (omega arith, omega arith, (omega arith, omega arith, (omega arith, omega arith, tt))),
      )
      fires

abbrev both : ℕ → Bool
both n = true

accepts-fair_example : contains 1 (accepts 2 0 (both ∷ both ∷ [])) ≡ true
accepts-fair_example =
    accepts-fair 2 0 1 (both ∷ both ∷ []) (omega arith) (omega arith) (refl, (refl, tt))
      (omega arith)

abbrev with_slot : Server
with_slot = acquire (serve 3)

abbrev one_task : Server
one_task = accept 2 both both with_slot

to_one_task : Run 2 (serve 3) (record one_task { shutdown = true })
unfolding acquire serve accept
to_one_task = extend (extend (extend halt (acquires refl)) (Runs.accepts both both refl)) cancels

Run-IsAccounted_example : IsAccounted 3 (record one_task { shutdown = true })
Run-IsAccounted_example = Run-IsAccounted to_one_task
