-- ===== src/Delivery/Splice.antt =====
-- crates/sni_router/src/delivery/splice.rs: the copy through a pipe of the kernel. The system calls are inputs:
-- a schedule has what each of them answers.
pub mod Admission
pub mod Pipes
pub mod Direction
pub mod Finishes
pub mod Copy
use sni_router.Common.{
  ℕ, ◌+◌, ◌-◌, Bool, true, false, List, [], ◌∷◌, ◌++◌, Option, none, some, Result, ok, err, ltb,
  ◌==◌, length, take, drop, min, max, if◌then◌else◌,
}
use sni_router.Delivery.Metered.{ByteCounters, add_read, add_written}

-- `io::Error` by its kind.
pub data SysError : Type 0 where
  interrupted not_connected write_zero : SysError
  other : ℕ → SysError

-- A call answers a number, of bytes moved where it moves bytes, or fails.
abbrev pub Call : Type 0
Call = Result SysError ℕ

-- The capacity that the kernel reports for a new pipe, or the size asked for.
unfoldable pub capacity : Option ℕ → ℕ → ℕ
capacity none buffer_size = buffer_size
capacity (some size) buffer_size = if ltb 0 size then size else buffer_size

-- One direction: what the source still has to send, what the pipe holds, what the destination got, the
-- amounts that were reported as read and as written, the latest first, and whether the write half is shut.
pub record Flow : Type 0 where
  pub source : List ℕ
  pub pipe : List ℕ
  pub sink : List ℕ
  pub reads : List ℕ
  pub writes : List ℕ
  pub shut : Bool

abbrev pub flow_of : List ℕ → Flow
flow_of bytes = record {
  source = bytes;
  pipe = [];
  sink = [];
  reads = [];
  writes = [];
  shut = false;
}

-- A direction has ended, or waits for a call that the schedule no longer has.
pub data Progress : Type 0 where
  ends : Result SysError (Unit {0}) → Flow → Progress
  waits : Flow → Progress

-- `shutdown_write`, a call that is interrupted made again.
unfoldable pub shutdown_write : Flow → List Call → Progress
shutdown_write flow [] = waits flow
shutdown_write flow (ok n ∷ calls) = ends (ok tt) (record flow { shut = true })
shutdown_write flow (err interrupted ∷ calls) = shutdown_write flow calls
shutdown_write flow (err not_connected ∷ calls) = ends (ok tt) (record flow { shut = true })
shutdown_write flow (err e ∷ calls) = ends (err e) flow

-- A splice from the source moves a byte at least, unless the source has ended, and fits the pipe.
abbrev pub pulled : ℕ → ℕ → Flow → List ℕ
pulled chunk n flow = take (min (max 1 n) chunk) flow.source

unfoldable pub splice_in : ℕ → ℕ → Flow → Flow
splice_in chunk n flow = record flow {
  source = drop (min (max 1 n) chunk) flow.source;
  pipe = flow.pipe ++ pulled chunk n flow;
  reads = length (pulled chunk n flow) ∷ flow.reads;
}

unfoldable pub splice_out : ℕ → Flow → Flow
splice_out n flow = record flow {
  pipe = drop n flow.pipe;
  sink = flow.sink ++ take n flow.pipe;
  writes = n ∷ flow.writes;
}

-- The two loops of `splice_direction`, the inner one while something remains in the pipe.
unfoldable pub splice_direction : ℕ → ℕ → Flow → List Call → Progress
unfolding shutdown_write splice_in splice_out
splice_direction chunk remaining flow [] = waits flow
splice_direction chunk remaining flow (err interrupted ∷ calls) =
    splice_direction chunk remaining flow calls
splice_direction chunk remaining flow (err e ∷ calls) = ends (err e) flow
splice_direction chunk remaining flow (ok n ∷ calls) =
    let read = length (pulled chunk n flow) in
    let pull = splice_direction chunk read (splice_in chunk n flow) calls in
    let written = min n remaining in
    let push = splice_direction chunk (remaining - written) (splice_out written flow) calls in
    if remaining == 0
    then if read == 0 then shutdown_write flow calls else pull
    else if written == 0
    then ends (err write_zero) flow
    else push

-- The callbacks of the two directions: the client's bytes count as read when they leave its socket, and as
-- written when they land in it.
unfoldable pub count_reads : List ℕ → ByteCounters → ByteCounters
unfolding add_read
count_reads [] counters = counters
count_reads (n ∷ reads) counters = add_read n (count_reads reads counters)

unfoldable pub count_writes : List ℕ → ByteCounters → ByteCounters
unfolding add_written
count_writes [] counters = counters
count_writes (n ∷ writes) counters = add_written n (count_writes writes counters)
