-- ===== src/Delivery/Connection/Close.antt =====
-- crates/sni_router/src/delivery/connection.rs: the events of a connection, from its opening to its close.
use sni_router.Common.{
  ℕ, zero, suc, ◌+◌, ◌≡◌, refl, ap, sym, ◌∙◌, true, List, [], ◌∷◌, ◌++◌, append_assoc, Option, none,
  some, arith, ltb, if◌then◌else◌, take, Bool-cases, inl, inr,
}
use sni_router.Metrics.{
  ListenerInfo, ConnectionOutcome, MetricEvent, connection_opened, connection_closed, bytes_read,
  bytes_written, aborted,
}
use sni_router.Delivery.Connection.{
  Course, run, close_record, TaskEnd, completes, dropped, handle_connection,
}
use sni_router.Delivery.Connection.Outcomes.{run-IsEnded}
use sni_router.Delivery.Connection.Ended.{is_inner, all_inner}

abbrev opens : MetricEvent → ℕ
opens (connection_opened l) = 1
opens _ = 0

abbrev closes : MetricEvent → ℕ
closes (connection_closed l o t) = 1
closes _ = 0

abbrev read_of : MetricEvent → ℕ
read_of (bytes_read l n) = n
read_of _ = 0

abbrev written_of : MetricEvent → ℕ
written_of (bytes_written l n) = n
written_of _ = 0

unfoldable pub total : (MetricEvent → ℕ) → List MetricEvent → ℕ
total amount [] = 0
total amount (e ∷ es) = amount e + total amount es

total-append :
    (amount : MetricEvent → ℕ) (es fs : List MetricEvent)
    → total amount (es ++ fs) ≡ total amount es + total amount fs
unfolding total
total-append amount [] fs = omega arith
total-append amount (e ∷ es) fs = omega (arith, total-append amount es fs)

-- The events of the stages add nothing to a total that they do not count in.
total-all_inner :
    (amount : MetricEvent → ℕ) (es : List MetricEvent)
    → ((e : MetricEvent) → is_inner e ≡ true → amount e ≡ 0)
    → all_inner es ≡ true
    → total amount es ≡ 0
unfolding total all_inner
total-all_inner amount [] outside h = refl
total-all_inner amount (e ∷ es) outside h = elim (Bool-cases (is_inner e)) [
  | inl inner ↦ omega (arith, outside e inner, total-all_inner amount es outside (rw inner at h))
  | inr outer ↦ absurd (cc (rw outer at h))
]

all_inner-take :
    (count : ℕ) (es : List MetricEvent) → all_inner es ≡ true → all_inner (take count es) ≡ true
unfolding all_inner
all_inner-take zero es h = refl
all_inner-take (suc count) [] h = refl
all_inner-take (suc count) (e ∷ es) h = ground (arith, all_inner-take count es)

-- What a task that ends so leaves as its outcome.
abbrev pub outcome_of : Course → TaskEnd → ConnectionOutcome
outcome_of course completes = (run course).1
outcome_of course (dropped count) = aborted

-- The events of a connection: the opening comes first and the close last, each once; the totals of bytes are
-- those of the counters.
pub record IsClosed (events : List MetricEvent) (listener : ListenerInfo)
    (outcome : ConnectionOutcome) (lifetime read written : ℕ) : Type 0 where
  pub first : (rest : List MetricEvent) × (events ≡ connection_opened listener ∷ rest)
  pub last :
      (before : List MetricEvent) × (events
        ≡ before ++ connection_closed listener outcome lifetime ∷ [])
  pub one_opening : total opens events ≡ 1
  pub one_close : total closes events ≡ 1
  pub all_read : total read_of events ≡ read
  pub all_written : total written_of events ≡ written

close_record-totals :
    (amount : MetricEvent → ℕ) (l : ListenerInfo) (o : Option ConnectionOutcome)
    (lifetime read written : ℕ)
    → total amount (close_record l o lifetime read written)
      ≡ (if ltb 0 read then amount (bytes_read l read) else 0)
        + (if ltb 0 written then amount (bytes_written l written) else 0)
        + amount (connection_closed l (elim o [ none ↦ aborted | some x ↦ x ]) lifetime)
unfolding close_record total
close_record-totals amount l o lifetime read written = ground arith

-- The events of a connection are its opening, those of its stages, and those of the close.
bracket-total :
    (amount : MetricEvent → ℕ) (stages : List MetricEvent) (l : ListenerInfo)
    (o : Option ConnectionOutcome) (lifetime read written : ℕ)
    → ((e : MetricEvent) → is_inner e ≡ true → amount e ≡ 0)
    → all_inner stages ≡ true
    → total amount (connection_opened l ∷ stages ++ close_record l o lifetime read written)
      ≡ amount (connection_opened l)
        + ((if ltb 0 read then amount (bytes_read l read) else 0)
            + (if ltb 0 written then amount (bytes_written l written) else 0)
            + amount (connection_closed l (elim o [ none ↦ aborted | some x ↦ x ]) lifetime))
unfolding total
bracket-total amount stages l o lifetime read written outside h = omega (
  arith,
  total-append amount stages (close_record l o lifetime read written),
  total-all_inner amount stages outside h,
  close_record-totals amount l o lifetime read written,
)

close_record-last :
    (l : ListenerInfo) (o : Option ConnectionOutcome) (lifetime read written : ℕ)
    → (before : List MetricEvent) × (close_record l o lifetime read written
        ≡ before ++ connection_closed l (elim o [ none ↦ aborted | some x ↦ x ]) lifetime ∷ [])
unfolding close_record
close_record-last l o lifetime read written =
    let reads = if ltb 0 read then bytes_read l read ∷ [] else [] in
    let writes = if ltb 0 written then bytes_written l written ∷ [] else [] in
    (reads ++ writes, refl)

bracketed :
    (stages : List MetricEvent) (l : ListenerInfo) (o : Option ConnectionOutcome)
    (lifetime read written : ℕ)
    → all_inner stages ≡ true
    → IsClosed
        (connection_opened l ∷ stages ++ close_record l o lifetime read written)
        l
        (elim o [ none ↦ aborted | some x ↦ x ])
        lifetime
        read
        written
unfolding is_inner
bracketed stages l o lifetime read written h =
    let (before, ends) = close_record-last l o lifetime read written in
    record {
      first = (_, refl);
      last = (
        connection_opened l ∷ stages ++ before,
        ap (λ es. connection_opened l ∷ stages ++ es) ends
            ∙ ap (λ es. connection_opened l ∷ es) (sym (append_assoc stages before _)),
      );
      one_opening =
          ground
            (arith, bracket-total opens stages l o lifetime read written (λ e. ground arith) h);
      one_close =
          ground
            (arith, bracket-total closes stages l o lifetime read written (λ e. ground arith) h);
      all_read =
          ground
            (arith, bracket-total read_of stages l o lifetime read written (λ e. ground arith) h);
      all_written =
          ground (
            arith,
            bracket-total written_of stages l o lifetime read written (λ e. ground arith) h,
          );
    }

-- Whatever the world does to a connection, and whether its task completes or is dropped after any of its
-- events, its events begin with the opening and end with the close, each recorded once; the close has the
-- outcome of the pipeline, or says that the task was aborted; and the bytes reported add up to the totals
-- of the counters.
pub handle_connection-IsClosed :
    (course : Course) (end : TaskEnd) (lifetime read written : ℕ)
    → IsClosed
        (handle_connection course end lifetime read written)
        course.listener
        (outcome_of course end)
        lifetime
        read
        written
unfolding handle_connection
handle_connection-IsClosed course completes lifetime read written =
    bracketed (run course).0.events course.listener (some (run course).1) lifetime read written
      (run-IsEnded course).inner
handle_connection-IsClosed course (dropped count) lifetime read written =
    bracketed (take count (run course).0.events) course.listener none lifetime read written
      (all_inner-take count (run course).0.events (run-IsEnded course).inner)
