-- ===== src/Delivery/Proxy/Idle.antt =====
-- crates/sni_router/src/delivery/proxy.rs: when an idle connection is closed, by the bytes that the metered
-- stream of metered.rs moves.
use sni_router.Common.{
  ℕ, ◌+◌, ◌*◌, ◌^◌, ◌≤◌, ◌<◌, ◌≡◌, refl, Bool, true, List, [], ◌∷◌, Option, none, some, ok, ltb,
  leb, leb→le, arith, Bool-cases, inl, inr, ◌⊎◌, ◌∙◌, if◌then◌else◌,
}
use sni_router.Delivery.Metered.{
  Activity, ByteCounters, MeteredStream, millisecond, new, last, touch, touch_stream, metered,
  poll_read, poll_write,
}
use sni_router.Delivery.Resolver.{Failure}
use sni_router.Delivery.Proxy.{idle_loop, idle_expired}

-- What happens to a connection, at a time: a read or a write of so many bytes, and a wake of the idle clock.
pub data Event : Type 0 where
  reads writes : (now : ℕ) (bytes : ℕ) → Event
  wakes : (now : ℕ) → Event

abbrev pub time : Event → ℕ
time (reads now bytes) = now
time (writes now bytes) = now
time (wakes now) = now

-- What the idle clock sees at each wake.
unfoldable pub wakes_of : List Event → MeteredStream → List (ℕ × Activity)
unfolding poll_read poll_write
wakes_of [] stream = []
wakes_of (reads now bytes ∷ es) stream = wakes_of es (poll_read now bytes stream)
wakes_of (writes now bytes ∷ es) stream =
    wakes_of es (poll_write {E = Failure} now (some (ok bytes)) stream)
wakes_of (wakes now ∷ es) stream =
    let rest = wakes_of es stream in
    elim stream.activity [ none ↦ rest | some activity ↦ (now, activity) ∷ rest ]

-- When the last byte moved, from when it had moved before the event.
unfoldable pub moved : ℕ → Event → ℕ
moved at (reads now bytes) = if ltb 0 bytes then now else at
moved at (writes now bytes) = if ltb 0 bytes then now else at
moved at (wakes now) = at

-- There is a wake at which the last byte had moved as long before as the timeout, to the millisecond.
pub data ClosesIdle (idle_timeout : ℕ) : ℕ → List Event → Type 0 where
  here :
      (at now : ℕ) (es : List Event)
      → at + idle_timeout < now + millisecond
      → ClosesIdle idle_timeout at (wakes now ∷ es)
  later :
      (at : ℕ) (e : Event) (es : List Event)
      → ClosesIdle idle_timeout (moved at e) es
      → ClosesIdle idle_timeout at (e ∷ es)

-- The connection lasts less than 2 ^ 64 milliseconds.
abbrev pub AreTimed : ℕ → List Event → Type 0
AreTimed start [] = Unit
AreTimed start (e ∷ es) =
    (start ≤ time e) × (time e < start + 2 ^ 64 * millisecond) × AreTimed start es

-- The stamp of the stream is that of the last byte that moved.
record IsStamped (start at : ℕ) (stream : MeteredStream) : Type 0 where
  activity : Activity
  stamped : stream.activity ≡ some activity
  begins : activity.start ≡ start
  recent : at < last activity + millisecond

touch-start : (now : ℕ) (activity : Activity) → (touch now activity).start ≡ activity.start
unfolding touch
touch-start now activity = refl

touch-recent :
    (now : ℕ) (activity : Activity)
    → activity.start ≤ now
    → now < activity.start + 2 ^ 64 * millisecond
    → now < last (touch now activity) + millisecond
unfolding touch last
touch-recent now activity since soon = omega (arith, since, soon)

-- The stream and the time of the last byte after a read or a write at a time in range.
touched-IsStamped :
    (start at now : ℕ) (stream : MeteredStream) (counters : ByteCounters)
    → start ≤ now
    → now < start + 2 ^ 64 * millisecond
    → IsStamped start at stream
    → IsStamped start now
        record { counters = counters; activity = touch_stream now stream.activity }
unfolding touch_stream
touched-IsStamped start at now stream counters since soon i = record {
  activity = touch now i.activity;
  stamped = rw i.stamped refl;
  begins = touch-start now i.activity ∙ i.begins;
  recent =
      touch-recent now i.activity (omega (arith, since, i.begins)) (omega (arith, soon, i.begins));
}

poll_read-IsStamped :
    (start at now bytes : ℕ) (stream : MeteredStream)
    → start ≤ now
    → now < start + 2 ^ 64 * millisecond
    → IsStamped start at stream
    → IsStamped start (moved at (reads now bytes)) (poll_read now bytes stream)
unfolding poll_read moved
poll_read-IsStamped start at now bytes stream since soon i = elim (Bool-cases (ltb 0 bytes)) [
  | inl some_bytes ↦
      rw (poll_read, moved, some_bytes) (touched-IsStamped start at now stream _ since soon i)
  | inr no_byte ↦ rw (poll_read, moved, no_byte) i
]

poll_write-IsStamped :
    (start at now bytes : ℕ) (stream : MeteredStream)
    → start ≤ now
    → now < start + 2 ^ 64 * millisecond
    → IsStamped start at stream
    → IsStamped start
        (moved at (writes now bytes))
        (poll_write {E = Failure} now (some (ok bytes)) stream)
unfolding poll_write moved
poll_write-IsStamped start at now bytes stream since soon i = elim (Bool-cases (ltb 0 bytes)) [
  | inl some_bytes ↦
      rw (poll_write, moved, some_bytes) (touched-IsStamped start at now stream _ since soon i)
  | inr no_byte ↦ rw (poll_write, moved, no_byte) i
]

-- A wake that does not close the connection leaves it to a later one.
idle_loop-cases :
    (representable : ℕ → Bool) (t now : ℕ) (activity : Activity) (others : List (ℕ × Activity))
    → idle_loop representable t ((now, activity) ∷ others) ≡ true
    → (last activity + t ≤ now) ⊎ (idle_loop representable t others ≡ true)
unfolding idle_loop
idle_loop-cases representable t now activity others h =
    elim (Bool-cases (representable (last activity + t))) [
      | inr never ↦ absurd (cc (rw (idle_loop, never) at h))
      | inl fits ↦ elim (Bool-cases (leb (last activity + t) now)) [
        | inl idle ↦ inl (leb→le _ _ idle)
        | inr busy ↦ inr (rw (idle_loop, fits, busy) at h)
      ]
    ]

idle_loop-ClosesIdle :
    (representable : ℕ → Bool) (t start : ℕ) (es : List Event) (at : ℕ) (stream : MeteredStream)
    → AreTimed start es
    → IsStamped start at stream
    → idle_loop representable t (wakes_of es stream) ≡ true
    → ClosesIdle t at es
unfolding wakes_of idle_loop moved
idle_loop-ClosesIdle representable t start [] at stream timed i h = cc
idle_loop-ClosesIdle representable t start (reads now bytes ∷ es) at stream (since, soon, timed) i
      h =
    later at _ es (
      idle_loop-ClosesIdle representable t start es _ _ timed
        (poll_read-IsStamped start at now bytes stream since soon i) h)
idle_loop-ClosesIdle representable t start (writes now bytes ∷ es) at stream (since, soon, timed) i
      h =
    later at _ es (
      idle_loop-ClosesIdle representable t start es _ _ timed
        (poll_write-IsStamped start at now bytes stream since soon i) h)
idle_loop-ClosesIdle representable t start (wakes now ∷ es) at stream (since, soon, timed) i h =
    elim (idle_loop-cases representable t now i.activity (wakes_of es stream)
      (rw (wakes_of, i.stamped) at h)) [
        | inl idle ↦ here at now es (omega (arith, idle, i.recent))
        | inr next ↦
            later at (wakes now) es
              (idle_loop-ClosesIdle representable t start es at stream timed i next)
      ]

-- A connection that lasts less than 2 ^ 64 milliseconds and is copied through the metered stream is closed as
-- idle only with an idle timeout, and at a time at which the last byte that it read from the client or wrote
-- to it had moved the timeout before, less at most a millisecond.
pub idle_expired-ClosesIdle :
    (representable : ℕ → Bool) (start : ℕ) (idle_timeout : Option ℕ) (es : List Event)
    → AreTimed start es
    → idle_expired representable idle_timeout (wakes_of es (metered start idle_timeout)) ≡ true
    → (t : ℕ) × (idle_timeout ≡ some t) × ClosesIdle t start es
unfolding idle_expired metered new last
idle_expired-ClosesIdle representable start none es timed h = cc
idle_expired-ClosesIdle representable start (some t) es timed h = (
  t,
  refl,
  idle_loop-ClosesIdle representable t start es start (metered start (some t)) timed
      record { activity = new start; stamped = refl; begins = refl; recent = omega arith } h,
)
