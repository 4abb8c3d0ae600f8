-- ===== src/Delivery/Connection.antt =====
-- crates/sni_router/src/delivery/connection.rs: the pipeline of one connection. What each await yields, and
-- how the race with shutdown and with its deadline ends, is an input; a duration is a number.
pub mod Close
pub mod Ended
pub mod Outcomes
pub mod Serves
pub mod Committed
use sni_router.Common.{
  ℕ, Bool, true, false, List, [], ◌∷◌, ◌++◌, Option, none, some, Result, ok, err, ltb, max,
  if◌then◌else◌, take, length,
}
use sni_router.Protocol.{ClientHelloInfo, unrecognized_name_alert}
use sni_router.Lookup.Hostname.{Hostname}
use sni_router.Lookup.Backend.{Backend}
use sni_router.Lookup.Routes.{RouteCandidates}
use sni_router.Metrics.{
  ListenerInfo, ConnectionOutcome, LookupOutcome, MetricEvent, found, error, connection_opened,
  connection_closed, bytes_read, bytes_written, route_lookup, upstream_connect, proxied,
  proxy_error, client_closed, hello_timeout, invalid_hello, missing_sni, unknown_host,
  upstream_connect_failed, upstream_timeout, idle_timeout, shutdown_cancelled, shutdown_forced,
  aborted,
}
use sni_router.Metrics
use sni_router.Routing.{RouteError, RouteMatch, LookupEnd, lookup, resolve_route}
use sni_router.Routing
use sni_router.Delivery.HelloReader.{HelloReadError, parse, closed, io}
use sni_router.Delivery.Gate.{ProxyGate, enter, drop_pass}
use sni_router.Delivery.Resolver.{Failure}
use sni_router.Delivery.Upstream.{Network, TcpStream, connect_and_replay}
use sni_router.Delivery.Proxy
use sni_router.Delivery.Proxy.{ProxyEnd, finished, idle, forced, proxy}

pub data Elapsed : Type 0 where
  elapsed : Elapsed

-- `tokio::time::timeout`: what the future yields, unless the deadline comes first.
unfoldable pub timeout {ℓ} : {A : Type ℓ} → Bool → A → Result Elapsed A
timeout late output = if late then err elapsed else ok output

unfoldable pub cancellable {ℓ} : {A : Type ℓ} → Bool → A → Option A
cancellable cancelled output = if cancelled then none else some output

abbrev pub HelloRead : Type 0
HelloRead = Result HelloReadError (List ℕ × ClientHelloInfo)

-- What the world does to a connection. The gate is as it stands when the connection asks for its pass. The
-- alert is cancelled when shutdown has begun before its first write; else the client takes so many bytes of it
-- until it is sent, a write fails, its second is over or shutdown begins.
pub record Course : Type 0 where
  pub listener : ListenerInfo
  pub hello : HelloRead
  pub hello_cancelled : Bool
  pub hello_late : Bool
  pub alert_cancelled : Bool
  pub alert_taken : ℕ
  pub store : RouteCandidates → LookupEnd
  pub lookup_cancelled : Bool
  pub lookup_time : ℕ
  pub network : Network
  pub upstream_cancelled : Bool
  pub upstream_late : Bool
  pub upstream_time : ℕ
  pub gate : ProxyGate
  pub force_cancelled : Bool
  pub idle_expired : Bool
  pub copied : Result Failure (Unit {0})

-- What the pipeline leaves: the fields of the connection's record, the events so far, what the client got of
-- each alert, the gate, and the connection that was proxied.
pub record Log : Type 0 where
  pub sni : Option Hostname
  pub backend : Option Backend
  pub events : List MetricEvent
  pub alerts : List (List ℕ)
  pub gate : ProxyGate
  pub upstream : Option TcpStream

abbrev record_event : Log → MetricEvent → Log
record_event log event = record log { events = log.events ++ event ∷ [] }

-- How the send ends is ignored.
unfoldable pub reject_unrecognized_name : Course → Log → Log
unfolding cancellable
reject_unrecognized_name course log =
    elim (cancellable course.alert_cancelled (take course.alert_taken unrecognized_name_alert)) [
      | none ↦ log
      | some sent ↦ record log { alerts = sent ∷ log.alerts }
    ]

unfoldable pub lookup_outcome {ℓ} : {A : Type ℓ} → Result RouteError A → LookupOutcome
lookup_outcome (ok route) = found
lookup_outcome (err Routing.not_found) = Metrics.not_found
lookup_outcome (err lookup) = error
lookup_outcome (err Routing.timeout) = Metrics.timeout

unfoldable pub proxy_outcome : ProxyEnd → ConnectionOutcome
proxy_outcome finished = proxied
proxy_outcome (Proxy.error e) = proxy_error
proxy_outcome idle = idle_timeout
proxy_outcome forced = shutdown_forced

abbrev pub proxy_end : Course → ProxyEnd
proxy_end course = proxy course.force_cancelled course.idle_expired course.copied

-- From the pass to the end: the pass is given back when the stage is over.
unfoldable pub run_proxy : Course → TcpStream → Log → Log × ConnectionOutcome
unfolding proxy_outcome enter drop_pass
run_proxy course stream log =
    let (gate, entered) = enter course.gate in
    if entered
    then (
      record log { gate = drop_pass gate; upstream = some stream },
      proxy_outcome (proxy_end course),
    )
    else (record log { gate = gate }, shutdown_cancelled)

abbrev connect_event : Course → Bool → MetricEvent
connect_event course is_ok = upstream_connect course.listener is_ok course.upstream_time

-- The `match` on the connection to the backend.
unfoldable pub connected :
    Course → Option (Result Elapsed (Result Failure TcpStream)) → Log → Log × ConnectionOutcome
unfolding run_proxy
connected course none log = (log, shutdown_cancelled)
connected course (some (ok (ok stream))) log =
    run_proxy course stream (record_event log (connect_event course true))
connected course (some (ok (err e))) log =
    (record_event log (connect_event course false), upstream_connect_failed)
connected course (some (err late)) log =
    (record_event log (connect_event course false), upstream_timeout)

-- Upstream connect and replay.
unfoldable pub run_upstream : Course → List ℕ → RouteMatch → Log → Log × ConnectionOutcome
unfolding connected cancellable timeout connect_and_replay
run_upstream course buffered route log =
    let connect = connect_and_replay course.network route.backend buffered in
    connected course (cancellable course.upstream_cancelled (timeout course.upstream_late connect))
      log

-- What the errors of the route lookup end with.
unfoldable pub lookup_failed : Course → RouteError → Log → Log × ConnectionOutcome
unfolding reject_unrecognized_name
lookup_failed course Routing.not_found log = (reject_unrecognized_name course log, unknown_host)
lookup_failed course lookup log = (log, Metrics.lookup_failed)
lookup_failed course Routing.timeout log = (log, Metrics.lookup_timeout)

abbrev lookup_event : Course → Result RouteError RouteMatch → MetricEvent
lookup_event course resolved =
    route_lookup course.listener (lookup_outcome resolved) course.lookup_time

-- The `match` on the route.
unfoldable pub resolved :
    Course → List ℕ → Option (Result RouteError RouteMatch) → Log → Log × ConnectionOutcome
unfolding run_upstream lookup_failed lookup_outcome
resolved course buffered none log = (log, shutdown_cancelled)
resolved course buffered (some (ok route)) log =
    run_upstream course buffered route
      record (record_event log (lookup_event course (ok route))) { backend = some route.backend }
resolved course buffered (some (err e)) log =
    lookup_failed course e (record_event log (lookup_event course (err e)))

unfoldable pub run_lookup : Course → List ℕ → Hostname → Log → Log × ConnectionOutcome
unfolding resolved resolve_route cancellable
run_lookup course buffered host log =
    resolved course buffered (cancellable course.lookup_cancelled (resolve_route course.store host))
      log

abbrev pub opened : Course → Log
opened course = record {
  sni = none;
  backend = none;
  events = [];
  alerts = [];
  gate = course.gate;
  upstream = none;
}

-- From the name of the ClientHello on.
unfoldable pub run_named : Course → List ℕ → Option Hostname → Log × ConnectionOutcome
unfolding run_lookup reject_unrecognized_name
run_named course buffered none = (reject_unrecognized_name course (opened course), missing_sni)
run_named course buffered (some host) =
    run_lookup course buffered host (record (opened course) { sni = some host })

-- The `match` on the read.
unfoldable pub hello_read : Course → Option (Result Elapsed HelloRead) → Log × ConnectionOutcome
unfolding run_named
hello_read course none = (opened course, shutdown_cancelled)
hello_read course (some (err late)) = (opened course, hello_timeout)
hello_read course (some (ok (err (parse e)))) = (opened course, invalid_hello)
hello_read course (some (ok (err closed))) = (opened course, client_closed)
hello_read course (some (ok (err io))) = (opened course, client_closed)
hello_read course (some (ok (ok (buffered, hello)))) = run_named course buffered hello.sni

unfoldable pub run : Course → Log × ConnectionOutcome
unfolding hello_read cancellable timeout
run course =
    hello_read course (cancellable course.hello_cancelled (timeout course.hello_late course.hello))

-- The `Drop` of the connection's record, with the totals of its byte counters.
unfoldable pub close_record : ListenerInfo → Option ConnectionOutcome → ℕ → ℕ → ℕ → List MetricEvent
close_record listener outcome lifetime read written =
    (if ltb 0 read then bytes_read listener read ∷ [] else [])
    ++ (if ltb 0 written then bytes_written listener written ∷ [] else [])
    ++ connection_closed listener (elim outcome [ none ↦ aborted | some o ↦ o ]) lifetime ∷ []

-- How the task of a connection that has begun to run ends: on its own, or dropped once so many of its events are recorded.
pub data TaskEnd : Type 0 where
  completes : TaskEnd
  dropped : ℕ → TaskEnd

-- All the events of a connection.
unfoldable pub handle_connection : Course → TaskEnd → ℕ → ℕ → ℕ → List MetricEvent
unfolding run close_record
handle_connection course completes lifetime read written =
    connection_opened course.listener ∷ (run course).0.events
    ++ close_record course.listener (some (run course).1) lifetime read written
handle_connection course (dropped count) lifetime read written =
    connection_opened course.listener ∷ take count (run course).0.events
    ++ close_record course.listener none lifetime read written
