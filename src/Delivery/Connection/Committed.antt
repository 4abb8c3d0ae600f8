-- ===== src/Delivery/Connection/Committed.antt =====
-- crates/sni_router/src/delivery/connection.rs: what must hold for a connection to be proxied.
use sni_router.Common.{
  ℕ, ◌≡◌, refl, sym, ap, ◌∙◌, Bool, true, false, List, [], ◌∷◌, ◌++◌, Option, none, some, Result,
  ok, err, Bool-cases, inl, inr,
}
use sni_router.Protocol.{ClientHelloInfo}
use sni_router.Lookup.Hostname.{Hostname}
use sni_router.Metrics.{MetricEvent, route_lookup, upstream_connect}
use sni_router.Routing
use sni_router.Routing.{RouteError, RouteMatch, lookup, resolve_route}
use sni_router.Delivery.HelloReader.{parse, closed, io}
use sni_router.Delivery.Gate.{enter}
use sni_router.Delivery.Resolver.{Failure}
use sni_router.Delivery.Upstream.{TcpStream, connect_and_replay}
use sni_router.Delivery.Upstream.Laws.{IsAddressOf, connect_and_replay-ok}
use sni_router.Delivery.Connection.{
  Course, Log, HelloRead, Elapsed, run, run_named, run_lookup, run_upstream, run_proxy, resolved,
  connected, lookup_failed, reject_unrecognized_name, hello_read, opened, lookup_outcome,
  cancellable, timeout,
}

cancellable-some {ℓ} :
    {A : Type ℓ} (cancelled : Bool) (output value : A)
    → cancellable cancelled output ≡ some value
    → (cancelled ≡ false) × (output ≡ value)
unfolding cancellable
cancellable-some true output value h = cc
cancellable-some false output value h = (refl, cc)

timeout-ok {ℓ} :
    {A : Type ℓ} (late : Bool) (output value : A)
    → timeout late output ≡ ok value
    → (late ≡ false) × (output ≡ value)
unfolding timeout
timeout-ok true output value h = cc
timeout-ok false output value h = (refl, cc)

-- The gate was open and the backend connected.
record IsCommitted (course : Course) (await : Option (Result Elapsed (Result Failure TcpStream)))
    (stream : TcpStream) : Type 0 where
  gate : course.gate.state.closed ≡ false
  came : await ≡ some (ok (ok stream))

run_proxy-committed :
    (course : Course) (conn stream : TcpStream) (log : Log)
    → log.upstream ≡ none
    → (run_proxy course conn log).0.upstream ≡ some stream
    → (course.gate.state.closed ≡ false) × (conn ≡ stream)
unfolding run_proxy enter
run_proxy-committed course conn stream log fresh = elim (Bool-cases course.gate.state.closed) [
  | inl shut ↦ rw shut (λ h. absurd (cc (fresh, h)))
  | inr open_gate ↦ rw open_gate (λ h. (refl, cc))
]

connected-IsCommitted :
    (course : Course) (await : Option (Result Elapsed (Result Failure TcpStream)))
    (stream : TcpStream) (log : Log)
    → log.upstream ≡ none
    → (connected course await log).0.upstream ≡ some stream
    → IsCommitted course await stream
unfolding connected
connected-IsCommitted course none stream log fresh h = absurd (cc (fresh, h))
connected-IsCommitted course (some (ok (ok conn))) stream log fresh h =
    let log' = record log {
      events = log.events ++ upstream_connect course.listener true course.upstream_time ∷ [];
    } in
    let (open_gate, same) = run_proxy-committed course conn stream log' fresh h in
    record { gate = open_gate; came = ap (λ c. some (ok (ok c))) same }
connected-IsCommitted course (some (ok (err e))) stream log fresh h = absurd (cc (fresh, h))
connected-IsCommitted course (some (err late)) stream log fresh h = absurd (cc (fresh, h))

run_upstream-committed :
    (course : Course) (buffered : List ℕ) (route : RouteMatch) (stream : TcpStream) (log : Log)
    → log.upstream ≡ none
    → (run_upstream course buffered route log).0.upstream ≡ some stream
    → (course.gate.state.closed ≡ false)
      × (connect_and_replay course.network route.backend buffered ≡ ok stream)
unfolding run_upstream
run_upstream-committed course buffered route stream log fresh h =
    let connect = connect_and_replay course.network route.backend buffered in
    let i = connected-IsCommitted course _ stream log fresh h in
    let (goes, in_time) =
      cancellable-some course.upstream_cancelled (timeout course.upstream_late connect) _ i.came in
    (i.gate, (timeout-ok course.upstream_late connect (ok stream) in_time).1)

reject-committed :
    (course : Course) (log : Log) → (reject_unrecognized_name course log).upstream ≡ log.upstream
unfolding reject_unrecognized_name cancellable
reject-committed course log = elim (Bool-cases course.alert_cancelled) [
  | inl cut ↦ rw cut refl
  | inr free ↦ rw free refl
]

lookup_failed-committed :
    (course : Course) (e : RouteError) (log : Log)
    → (lookup_failed course e log).0.upstream ≡ log.upstream
unfolding lookup_failed
lookup_failed-committed course Routing.not_found log = reject-committed course log
lookup_failed-committed course lookup log = refl
lookup_failed-committed course Routing.timeout log = refl

abbrev lookup_failure : Course → RouteError → MetricEvent
lookup_failure course e =
    route_lookup course.listener (lookup_outcome {A = RouteMatch} (err e)) course.lookup_time

-- The route of a connection that is proxied.
record IsRouted (course : Course) (buffered : List ℕ)
    (await : Option (Result RouteError RouteMatch)) (stream : TcpStream) : Type 0 where
  route : RouteMatch
  found_it : await ≡ some (ok route)
  gate : course.gate.state.closed ≡ false
  connects : connect_and_replay course.network route.backend buffered ≡ ok stream

resolved-committed :
    (course : Course) (buffered : List ℕ) (await : Option (Result RouteError RouteMatch))
    (stream : TcpStream) (log : Log)
    → log.upstream ≡ none
    → (resolved course buffered await log).0.upstream ≡ some stream
    → IsRouted course buffered await stream
unfolding resolved
resolved-committed course buffered none stream log fresh h = absurd (cc (fresh, h))
resolved-committed course buffered (some (ok route)) stream log fresh h =
    let (open_gate, connects) = run_upstream-committed course buffered route stream _ fresh h in
    record { route = route; found_it = refl; gate = open_gate; connects = connects }
resolved-committed course buffered (some (err e)) stream log fresh h = absurd (
    cc (
      lookup_failed-committed course e
          (record log { events = log.events ++ lookup_failure course e ∷ [] }),
      fresh,
      h,
    ))

-- A connection that is proxied: the gate was open, the ClientHello was read and names a host, the store has
-- a route for the host, and the router is connected to an address of the route's backend, to which it wrote
-- the bytes it had read.
pub record HasCommitted (course : Course) (stream : TcpStream) : Type 0 where
  pub gate : course.gate.state.closed ≡ false
  pub info : ClientHelloInfo
  pub read : course.hello ≡ ok (stream.written, info)
  pub host : Hostname
  pub named : info.sni ≡ some host
  pub route : RouteMatch
  pub routed : resolve_route course.store host ≡ ok route
  pub address : IsAddressOf course.network route.backend stream.peer

run_named-committed :
    (course : Course) (buffered : List ℕ) (info : ClientHelloInfo) (name : Option Hostname)
    (stream : TcpStream)
    → course.hello ≡ ok (buffered, info)
    → info.sni ≡ name
    → (run_named course buffered name).0.upstream ≡ some stream
    → HasCommitted course stream
unfolding run_named run_lookup
run_named-committed course buffered info none stream read named h =
    absurd (cc (reject-committed course (opened course), h))
run_named-committed course buffered info (some host) stream read named h =
    let i =
      resolved-committed course buffered _ stream (record (opened course) { sni = some host }) refl
        h in
    let (goes, routed) =
      cancellable-some course.lookup_cancelled (resolve_route course.store host) _ i.found_it in
    let (sent, place) =
      connect_and_replay-ok course.network i.route.backend buffered stream i.connects in
    record {
      gate = i.gate;
      info = info;
      read = read ∙ ap (λ b. ok (b, info)) (sym sent);
      host = host;
      named = named;
      route = i.route;
      routed = routed;
      address = place;
    }

hello_read-committed :
    (course : Course) (await : Option (Result Elapsed HelloRead)) (stream : TcpStream)
    → await ≡ cancellable course.hello_cancelled (timeout course.hello_late course.hello)
    → (hello_read course await).0.upstream ≡ some stream
    → HasCommitted course stream
unfolding hello_read
hello_read-committed course none stream e h = absurd (cc)
hello_read-committed course (some (err late)) stream e h = absurd (cc)
hello_read-committed course (some (ok (err (parse x)))) stream e h = absurd (cc)
hello_read-committed course (some (ok (err closed))) stream e h = absurd (cc)
hello_read-committed course (some (ok (err io))) stream e h = absurd (cc)
hello_read-committed course (some (ok (ok (buffered, info)))) stream e h =
    let (goes, in_time) =
      cancellable-some course.hello_cancelled (timeout course.hello_late course.hello) _ (sym e) in
    let (timely, read) = timeout-ok course.hello_late course.hello _ in_time in
    run_named-committed course buffered info info.sni stream read refl h

-- Whatever the world does, a connection is proxied only when the gate was open, the ClientHello was read and
-- names a host, the store's answer selects a route for that host, and the router is connected to an address
-- of that route's backend, and exactly the bytes read from the client were written to it.
pub run-committed :
    (course : Course) (stream : TcpStream)
    → (run course).0.upstream ≡ some stream
    → HasCommitted course stream
unfolding run
run-committed course stream h = hello_read-committed course _ stream refl h
