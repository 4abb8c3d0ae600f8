-- ===== src/Delivery/Metered.antt =====
-- crates/sni_router/src/delivery/metered.rs: the byte counters and the idle clock of a connection. A counter is
-- an atomic of 64 bits; instants and durations are nanoseconds, and the stamp is in whole milliseconds.
use sni_router.Common.{
  ℕ, ◌+◌, ◌-◌, ◌*◌, ◌/◌, ◌%◌, ◌^◌, Option, none, some, Result, ok, err, ltb, min, if◌then◌else◌,
}

abbrev u64_max : ℕ
u64_max = 2 ^ 64 - 1

abbrev pub millisecond : ℕ
millisecond = 1000000

pub record Activity : Type 0 where
  pub start : ℕ
  pub last_millis : ℕ

unfoldable pub new : ℕ → Activity
new start = record { start = start; last_millis = 0 }

unfoldable pub touch : ℕ → Activity → Activity
touch now activity = record activity {
  last_millis = min ((now - activity.start) / millisecond) u64_max;
}

unfoldable pub last : Activity → ℕ
last activity = activity.start + activity.last_millis * millisecond

pub record ByteCounters : Type 0 where
  pub read : ℕ
  pub written : ℕ

abbrev pub no_bytes : ByteCounters
no_bytes = record { read = 0; written = 0 }

-- `AtomicU64::fetch_add` wraps around.
abbrev pub fetch_add : ℕ → ℕ → ℕ
fetch_add total n = (total + n) % 2 ^ 64

unfoldable pub add_read : ℕ → ByteCounters → ByteCounters
add_read n counters = record counters { read = fetch_add counters.read n }

unfoldable pub add_written : ℕ → ByteCounters → ByteCounters
add_written n counters = record counters { written = fetch_add counters.written n }

unfoldable totals : ByteCounters → ℕ × ℕ
totals counters = (counters.read, counters.written)

-- What the wrapper keeps of a stream.
pub record MeteredStream : Type 0 where
  pub counters : ByteCounters
  pub activity : Option Activity

-- The wrapper of a connection's client, which has a stamp when there is an idle timeout.
unfoldable pub metered : ℕ → Option ℕ → MeteredStream
unfolding new
metered start idle_timeout = record {
  counters = no_bytes;
  activity = elim idle_timeout [ none ↦ none | some _ ↦ some (new start) ];
}

unfoldable pub touch_stream : ℕ → Option Activity → Option Activity
unfolding touch
touch_stream now none = none
touch_stream now (some activity) = some (touch now activity)

-- A read at a time, that filled so many bytes of the buffer.
unfoldable pub poll_read : ℕ → ℕ → MeteredStream → MeteredStream
unfolding add_read touch_stream
poll_read now filled stream =
    if ltb 0 filled
    then record {
      counters = add_read filled stream.counters;
      activity = touch_stream now stream.activity;
    }
    else stream

-- A write at a time: it is pending, or it wrote so many bytes, or it failed.
unfoldable pub poll_write : {E : Type 0} → ℕ → Option (Result E ℕ) → MeteredStream → MeteredStream
unfolding add_written touch_stream
poll_write now none stream = stream
poll_write now (some (err e)) stream = stream
poll_write now (some (ok written)) stream =
    if ltb 0 written
    then record {
      counters = add_written written stream.counters;
      activity = touch_stream now stream.activity;
    }
    else stream
