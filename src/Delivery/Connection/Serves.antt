-- ===== src/Delivery/Connection/Serves.antt =====
-- crates/sni_router/src/delivery: from the client's bytes to the backend, and back from a proxied connection
-- to the route that it was given.
use sni_router.Common.{
  ℕ, ◌≤◌, ◌≡◌, refl, sym, ap, ◌∙◌, Bool, true, false, List, [], ◌∷◌, ◌++◌, Option, some, ok, length,
  length-append, subst, arith,
}
use sni_router.Lookup.RouteKey.{RouteKey}
use sni_router.Lookup.Hostname.{Hostname}
use sni_router.Lookup.Backend.{Backend}
use sni_router.Protocol.{HelloLimits, ClientHelloInfo}
use sni_router.Protocol.Hello.{parse_client_hello_body}
use sni_router.Protocol.Record.Parse.{parse_client_hello_sound}
use sni_router.Protocol.Record.Wire.{Fragment, wire}
use sni_router.Protocol.Record.RoundTrip.{Carries}
use sni_router.Routing.{RouteMatch, resolve_route}
use sni_router.Routing.Precedence.{IsServing, route_of, resolve_route-IsServing}
use sni_router.Metrics.{ConnectionOutcome, found, route_lookup, upstream_connect}
use sni_router.Delivery.HelloReader.{Read, returns, read_client_hello}
use sni_router.Delivery.HelloReader.Verdict.{AllYield}
use sni_router.Delivery.HelloReader.Bound.{read_client_hello-Carries, read_client_hello-IsRead}
use sni_router.Delivery.Upstream.{Network, TcpStream, connect_backend, connect_and_replay}
use sni_router.Delivery.Gate.{enter}
use sni_router.Delivery.Connection.{
  Course, Log, run, run_named, run_lookup, run_upstream, run_proxy, resolved, connected,
  proxy_outcome, proxy_end, hello_read, opened, lookup_outcome, cancellable, timeout,
}

-- Nothing interrupts the connection before its proxy stage, and the gate is open.
pub record IsUndisturbed (course : Course) : Type 0 where
  pub hello : course.hello_cancelled ≡ false
  pub hello_in_time : course.hello_late ≡ false
  pub lookup : course.lookup_cancelled ≡ false
  pub upstream : course.upstream_cancelled ≡ false
  pub upstream_in_time : course.upstream_late ≡ false
  pub gate : course.gate.state.closed ≡ false

-- What a connection that reaches the proxy stage leaves.
pub record IsProxied (course : Course) (host : Hostname) (route : RouteMatch) (stream : TcpStream)
    (end : Log × ConnectionOutcome) : Type 0 where
  pub outcome : end.1 ≡ proxy_outcome (proxy_end course)
  pub upstream : end.0.upstream ≡ some stream
  pub sni : end.0.sni ≡ some host
  pub backend : end.0.backend ≡ some route.backend

undisturbed {ℓ} :
    {A : Type ℓ} (cancelled late : Bool) (output value : A)
    → cancelled ≡ false
    → late ≡ false
    → output ≡ value
    → cancellable cancelled (timeout late output) ≡ some (ok value)
unfolding cancellable timeout
undisturbed cancelled late output value c l o = rw (c, l, o) refl

-- The log of a connection whose stages up to the gate went through.
abbrev up_to_gate : Course → Hostname → RouteMatch → Log
up_to_gate course host route = record (opened course) {
  sni = some host;
  backend = some route.backend;
  events =
      route_lookup course.listener found course.lookup_time
      ∷ upstream_connect course.listener true course.upstream_time
      ∷ [];
}

run_proxy-IsProxied :
    (course : Course) (host : Hostname) (route : RouteMatch) (stream : TcpStream)
    → course.gate.state.closed ≡ false
    → IsProxied course host route stream (run_proxy course stream (up_to_gate course host route))
unfolding run_proxy enter
run_proxy-IsProxied course host route stream open_gate =
    rw open_gate record { outcome = refl; upstream = refl; sni = refl; backend = refl }

-- The stages up to the gate, each by what its await yields.
run-undisturbed :
    (course : Course) (buffered : List ℕ) (info : ClientHelloInfo) (host : Hostname)
    (route : RouteMatch) (stream : TcpStream)
    → IsUndisturbed course
    → course.hello ≡ ok (buffered, info)
    → info.sni ≡ some host
    → resolve_route course.store host ≡ ok route
    → connect_and_replay course.network route.backend buffered ≡ ok stream
    → run course ≡ run_proxy course stream (up_to_gate course host route)
unfolding run hello_read run_named run_lookup run_upstream resolved connected cancellable
    lookup_outcome
run-undisturbed course buffered info host route stream calm read named routed up =
    let came =
      undisturbed course.hello_cancelled course.hello_late course.hello _ calm.hello
        calm.hello_in_time read in
    let found_it : cancellable course.lookup_cancelled (resolve_route course.store host)
        ≡ some (ok route) =
      rw (calm.lookup, routed) refl in
    let connects =
      undisturbed course.upstream_cancelled course.upstream_late _ _ calm.upstream
        calm.upstream_in_time up in
    let named_log = record (opened course) { sni = some host } in
    let routed_log = record named_log {
      backend = some route.backend;
      events = route_lookup course.listener found course.lookup_time ∷ [];
    } in
    ap (hello_read course) came
    ∙ ap (run_named course buffered) named
    ∙ ap (λ await. resolved course buffered await named_log) found_it
    ∙ ap (λ await. connected course await routed_log) connects

-- The network lets the router connect to the backend and write to it.
pub record IsReachable (net : Network) (backend : Backend) (stream : TcpStream) : Type 0 where
  pub connects : connect_backend net backend ≡ ok stream
  pub no_delay : net.set_nodelay stream.peer ≡ ok tt
  pub writes : (bytes : List ℕ) → net.write_all stream.peer bytes ≡ ok tt

replayed :
    (net : Network) (backend : Backend) (stream : TcpStream) (buffered : List ℕ)
    → IsReachable net backend stream
    → connect_and_replay net backend buffered
      ≡ ok (record stream { written = stream.written ++ buffered })
unfolding connect_and_replay
replayed net backend stream buffered i = rw (i.connects, i.no_delay, i.writes buffered) refl

-- What is read of a ClientHello has all its records.
read_client_hello-whole :
    (limits : HelloLimits) (stream buf : List ℕ) (info : ClientHelloInfo) (reads : List Read)
    → read_client_hello limits stream reads ≡ returns (ok (buf, info))
    → info.consumed ≤ length buf
read_client_hello-whole limits stream buf info reads h =
    let (rest, within, parsed) = rw h at (read_client_hello-IsRead limits stream reads) in
    let (n, fs, more, whole, framing, body, size) =
      parse_client_hello_sound limits buf info parsed in
    omega (arith, size, ap length whole, length-append (wire fs) more)

-- When a client sends a ClientHello within the limits that names a host, however it is cut into records and
-- into reads, and whatever follows it, the store serves a table that has a route for the host, the backend
-- of the route can be reached, and neither a deadline nor shutdown comes first, then the connection is
-- proxied to that backend, and what the backend gets first is a beginning of what the client sent that has
-- the whole ClientHello.
pub run-serves :
    (limits : HelloLimits) (body : List ℕ) (fs : List Fragment) (q : List ℕ) (host : Hostname)
    (reads : List Read) (table : RouteKey → Option Backend) (route : RouteMatch)
    (stream : TcpStream) (course : Course)
    → Carries limits body fs
    → parse_client_hello_body body ≡ ok (some host)
    → length (wire fs) ≤ length reads
    → AllYield reads
    → read_client_hello limits (wire fs ++ q) reads ≡ returns course.hello
    → IsServing course.store table
    → route_of table host ≡ ok route
    → stream.written ≡ []
    → IsReachable course.network route.backend stream
    → IsUndisturbed course
    → (sent : List ℕ) × (rest : List ℕ) × (sent ++ rest ≡ wire fs ++ q)
      × (length (wire fs) ≤ length sent)
      × IsProxied course host route (record stream { written = sent }) (run course)
run-serves limits body fs q host reads table route stream course carries named enough yields read
      serving routed new reachable calm =
    let (sent, rest, whole, came) =
      read_client_hello-Carries limits body fs q (some host) reads carries named enough yields in
    let info : ClientHelloInfo = record { sni = some host; consumed = length (wire fs) } in
    let hello : course.hello ≡ ok (sent, info) = cc (came, read) in
    let up : connect_and_replay course.network route.backend sent
        ≡ ok (record stream { written = sent }) =
      replayed course.network route.backend stream sent reachable
      ∙ ap (λ w. ok (record stream { written = w ++ sent })) new in
    let route_found = resolve_route-IsServing course.store table host serving ∙ routed in
    (
      sent,
      rest,
      whole,
      read_client_hello-whole limits (wire fs ++ q) sent info reads came,
      subst (IsProxied course host route (record stream { written = sent }))
          (sym (run-undisturbed course sent info host route _ calm hello refl route_found up))
          (run_proxy-IsProxied course host route _ calm.gate),
    )
