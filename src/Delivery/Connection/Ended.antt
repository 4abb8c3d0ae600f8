-- ===== src/Delivery/Connection/Ended.antt =====
-- crates/sni_router/src/delivery/connection.rs: what a connection leaves that has ended, or that is still in its
-- handshake.
use sni_router.Common.{
  ℕ, take, ◌≡◌, refl, Bool, true, false, List, [], ◌∷◌, ◌++◌, Option, none, some, arith,
  if◌then◌else◌,
}
use sni_router.Protocol.{unrecognized_name_alert}
use sni_router.Metrics.{
  ConnectionOutcome, MetricEvent, connection_opened, connection_closed, proxied, proxy_error,
  missing_sni, unknown_host, idle_timeout, shutdown_forced, bytes_read, bytes_written,
}
use sni_router.Delivery.Connection.{Course, Log}

unfoldable pub is_rejected : ConnectionOutcome → Bool
is_rejected missing_sni = true
is_rejected unknown_host = true
is_rejected _ = false

unfoldable pub is_proxied : ConnectionOutcome → Bool
is_proxied proxied = true
is_proxied proxy_error = true
is_proxied idle_timeout = true
is_proxied shutdown_forced = true
is_proxied _ = false

-- An event of a stage: no opening, no total of bytes and no close.
unfoldable pub is_inner : MetricEvent → Bool
is_inner (connection_opened l) = false
is_inner (connection_closed l o t) = false
is_inner (bytes_read l n) = false
is_inner (bytes_written l n) = false
is_inner _ = true

unfoldable pub all_inner : List MetricEvent → Bool
unfolding is_inner
all_inner [] = true
all_inner (e ∷ es) = if is_inner e then all_inner es else false

all_inner-append :
    (es : List MetricEvent) (e : MetricEvent)
    → all_inner es ≡ true
    → is_inner e ≡ true
    → all_inner (es ++ e ∷ []) ≡ true
unfolding all_inner
all_inner-append [] e h i = rw i refl
all_inner-append (d ∷ es) e h i = ground (arith, all_inner-append es e)

abbrev pub is_some {ℓ} : {A : Type ℓ} → Option A → Bool
is_some none = false
is_some (some a) = true

-- What the client gets of alerts: of one, the bytes that it takes, if shutdown has not begun.
unfoldable pub alerts_of : Course → List (List ℕ)
alerts_of course =
    if course.alert_cancelled then [] else take course.alert_taken unrecognized_name_alert ∷ []

-- The alert is sent once if the connection is rejected for its name, and else never; a connection to the
-- backend is proxied exactly when the outcome is one of the proxy stage; the gate counts as many passes as
-- before; no stage reports an opening, a total of bytes or a close.
pub record IsEnded (course : Course) (end : Log × ConnectionOutcome) : Type 0 where
  pub alerts : end.0.alerts ≡ (if is_rejected end.1 then alerts_of course else [])
  pub stage : is_some end.0.upstream ≡ is_proxied end.1
  pub passes : end.0.gate.state.proxying ≡ course.gate.state.proxying
  pub inner : all_inner end.0.events ≡ true

-- A connection that is still in its handshake.
pub record IsPending (course : Course) (log : Log) : Type 0 where
  pub alerts : log.alerts ≡ []
  pub upstream : log.upstream ≡ none
  pub gate : log.gate ≡ course.gate
  pub inner : all_inner log.events ≡ true

-- It ends with an outcome for which no alert is sent and nothing is proxied.
pub quit-IsEnded :
    (course : Course) (log : Log) (o : ConnectionOutcome)
    → is_rejected o ≡ false
    → is_proxied o ≡ false
    → IsPending course log
    → IsEnded course (log, o)
quit-IsEnded course log o r p i = record {
  alerts = rw r i.alerts;
  stage = rw (p, i.upstream) refl;
  passes = rw i.gate refl;
  inner = i.inner;
}

pub record-IsPending :
    (course : Course) (log : Log) (e : MetricEvent)
    → is_inner e ≡ true
    → IsPending course log
    → IsPending course (record log { events = log.events ++ e ∷ [] })
record-IsPending course log e h i = record {
  alerts = i.alerts;
  upstream = i.upstream;
  gate = i.gate;
  inner = all_inner-append log.events e i.inner h;
}
