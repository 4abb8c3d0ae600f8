-- ===== src/Delivery/Splice/Copy.antt =====
-- crates/sni_router/src/delivery/splice.rs: both directions of the copy, with the byte counters.
use sni_router.Common.{
  ℕ, ◌+◌, ◌%◌, ◌^◌, ◌<◌, ◌≡◌, refl, ap, ◌∙◌, List, [], ◌∷◌, ◌++◌, Option, none, some, Result, ok,
  err, arith, length,
}
use native.Mathlib.Nat.{mod-add-mod}
use sni_router.Delivery.Metered.{ByteCounters, fetch_add, add_read, add_written}
use sni_router.Delivery.Splice.{
  SysError, Call, Flow, flow_of, Progress, ends, waits, splice_direction, count_reads, count_writes,
}
use sni_router.Delivery.Splice.Direction.{sum, IsFlow, IsDelivered, splice_direction-IsDelivered}

unfoldable pub try_join : Progress → Progress → Option (Result SysError (Unit {0}))
try_join (ends (err e) up) down = some (err e)
try_join (waits up) (ends (err e) down) = some (err e)
try_join (waits up) (ends (ok done) down) = none
try_join (waits up) (waits down) = none
try_join (ends (ok done) up) (ends (err e) down) = some (err e)
try_join (ends (ok done) up) (ends (ok done') down) = some (ok tt)
try_join (ends (ok done) up) (waits down) = none

abbrev pub flow_at : Progress → Flow
flow_at (ends result flow) = flow
flow_at (waits flow) = flow

-- The two directions, as far as they had come when the join ended, and the counters.
pub record Copied : Type 0 where
  pub up : Progress
  pub down : Progress
  pub result : Option (Result SysError (Unit {0}))
  pub counters : ByteCounters

-- What each side sends, the capacities of the two pipes, and the calls of each direction until the join ends.
unfoldable pub copy_bidirectional :
    ℕ → ℕ → List ℕ → List ℕ → List Call → List Call → ByteCounters → Copied
unfolding try_join splice_direction count_reads count_writes
copy_bidirectional to_upstream to_client client upstream up_calls down_calls counters =
    let up = splice_direction to_upstream 0 (flow_of client) up_calls in
    let down = splice_direction to_client 0 (flow_of upstream) down_calls in
    record {
      up = up;
      down = down;
      result = try_join up down;
      counters = count_writes (flow_at down).writes (count_reads (flow_at up).reads counters);
    }

delivered-IsFlow :
    (stream : List ℕ) (chunk : ℕ) (p : Progress)
    → IsDelivered stream chunk p
    → IsFlow stream chunk (flow_at p)
delivered-IsFlow stream chunk (waits flow) i = i
delivered-IsFlow stream chunk (ends (err e) flow) i = i
delivered-IsFlow stream chunk (ends (ok done) flow) i = i.0

try_join-ok :
    (client upstream : List ℕ) (m n : ℕ) (up down : Progress)
    → IsDelivered client m up
    → IsDelivered upstream n down
    → try_join up down ≡ some (ok tt)
    → ((flow_at up).sink ≡ client) × ((flow_at down).sink ≡ upstream)
unfolding try_join
try_join-ok client upstream m n (ends (err e) up) down i j h = cc
try_join-ok client upstream m n (waits up) (ends (err e) down) i j h = cc
try_join-ok client upstream m n (waits up) (ends (ok done) down) i j h = cc
try_join-ok client upstream m n (waits up) (waits down) i j h = cc
try_join-ok client upstream m n (ends (ok done) up) (ends (err e) down) i j h = cc
try_join-ok client upstream m n (ends (ok done) up) (ends (ok done') down) i j h = (i.1, j.1)
try_join-ok client upstream m n (ends (ok done) up) (waits down) i j h = cc

-- A wrapped total, to which one amount more is added.
wrapped :
    (start amounts n total : ℕ)
    → total ≡ (start + amounts) % 2 ^ 64
    → fetch_add total n ≡ (start + (n + amounts)) % 2 ^ 64
wrapped start amounts n total h =
    ap (λ t. (t + n) % 2 ^ 64) h
    ∙ mod-add-mod (start + amounts) (2 ^ 64) n
    ∙ ap (λ t. t % 2 ^ 64) (omega arith)

count_reads_lem :
    (reads : List ℕ) (c : ByteCounters)
    → c.read < 2 ^ 64
    → ((count_reads reads c).read ≡ (c.read + sum reads) % 2 ^ 64)
      × ((count_reads reads c).written ≡ c.written)
unfolding count_reads add_read sum
count_reads_lem [] c small = (omega (arith, small), refl)
count_reads_lem (n ∷ reads) c small =
    let (read, written) = count_reads_lem reads c small in
    (wrapped c.read (sum reads) n _ read, written)

count_writes_lem :
    (writes : List ℕ) (c : ByteCounters)
    → c.written < 2 ^ 64
    → ((count_writes writes c).written ≡ (c.written + sum writes) % 2 ^ 64)
      × ((count_writes writes c).read ≡ c.read)
unfolding count_writes add_written sum
count_writes_lem [] c small = (omega (arith, small), refl)
count_writes_lem (n ∷ writes) c small =
    let (written, read) = count_writes_lem writes c small in
    (wrapped c.written (sum writes) n _ written, read)

-- What the copy has done when its join ends, whatever the system calls answered: each side's bytes went to
-- the other side in order; the counter of bytes read has grown by what left the client's socket, and that of
-- bytes written by what reached it, both modulo 2 ^ 64.
pub record IsCopied (to_upstream to_client : ℕ) (client upstream : List ℕ) (counters : ByteCounters)
    (copied : Copied) : Type 0 where
  pub up : IsFlow client to_upstream (flow_at copied.up)
  pub down : IsFlow upstream to_client (flow_at copied.down)
  pub read :
      copied.counters.read
      ≡ (counters.read + length ((flow_at copied.up).sink ++ (flow_at copied.up).pipe)) % 2 ^ 64
  pub written :
      copied.counters.written ≡ (counters.written + length (flow_at copied.down).sink) % 2 ^ 64

-- For every schedule of the system calls of both directions, the copy has done what `IsCopied` says.
pub copy_bidirectional-IsCopied :
    (to_upstream to_client : ℕ) (client upstream : List ℕ) (up_calls down_calls : List Call)
    (counters : ByteCounters)
    → 0 < to_upstream
    → 0 < to_client
    → counters.read < 2 ^ 64
    → counters.written < 2 ^ 64
    → IsCopied to_upstream to_client client upstream counters
        (copy_bidirectional to_upstream to_client client upstream up_calls down_calls counters)
unfolding copy_bidirectional
copy_bidirectional-IsCopied to_upstream to_client client upstream up_calls down_calls counters m n
      small small' =
    let i = splice_direction-IsDelivered client to_upstream up_calls m in
    let j = splice_direction-IsDelivered upstream to_client down_calls n in
    let up = delivered-IsFlow client to_upstream _ i in
    let down = delivered-IsFlow upstream to_client _ j in
    let reads = (flow_at (splice_direction to_upstream 0 (flow_of client) up_calls)).reads in
    let writes = (flow_at (splice_direction to_client 0 (flow_of upstream) down_calls)).writes in
    let (read, same) = count_reads_lem reads counters small in
    let (written, same') = count_writes_lem writes (count_reads reads counters) (rw same small') in
    record {
      up = up;
      down = down;
      read = same' ∙ read ∙ ap (λ t. (counters.read + t) % 2 ^ 64) up.read;
      written =
          written
          ∙ ap (λ t. (t + sum writes) % 2 ^ 64) same
          ∙ ap (λ t. (counters.written + t) % 2 ^ 64) down.written;
    }

-- When the copy ends without an error, each side has got all that the other sent, in order.
pub copy_bidirectional-ok :
    (to_upstream to_client : ℕ) (client upstream : List ℕ) (up_calls down_calls : List Call)
    (counters : ByteCounters)
    → 0 < to_upstream
    → 0 < to_client
    → (copy_bidirectional to_upstream to_client client upstream up_calls down_calls counters).result
      ≡ some (ok tt)
    → ((flow_at
          (copy_bidirectional to_upstream to_client client upstream up_calls down_calls
            counters).up).sink
        ≡ client)
      × ((flow_at
            (copy_bidirectional to_upstream to_client client upstream up_calls down_calls
              counters).down).sink
          ≡ upstream)
unfolding copy_bidirectional
copy_bidirectional-ok to_upstream to_client client upstream up_calls down_calls counters m n done =
    try_join-ok client upstream to_upstream to_client _ _
      (splice_direction-IsDelivered client to_upstream up_calls m)
      (splice_direction-IsDelivered upstream to_client down_calls n) done
