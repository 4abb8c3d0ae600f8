-- ===== src/Delivery/Connection/Outcomes.antt =====
-- crates/sni_router/src/delivery/connection.rs: what a connection leaves, for each way it can end.
use sni_router.Common.{
  ap, ◌∙◌, [], ℕ, ◌≡◌, refl, true, false, List, Option, none, some, Result, ok, err, arith,
  Bool-cases, inl, inr,
}
use sni_router.Lookup.Hostname.{Hostname}
use sni_router.Lookup.Backend.{Backend}
use sni_router.Routing
use sni_router.Routing.{RouteError, RouteMatch, lookup, resolve_route}
use sni_router.Delivery.Gate.{enter, drop_pass}
use sni_router.Delivery.Upstream.{TcpStream}
use sni_router.Delivery.Proxy
use sni_router.Delivery.Proxy.{ProxyEnd, finished, idle, forced}
use sni_router.Delivery.HelloReader.{parse, closed, io}
use sni_router.Delivery.Resolver.{Failure}
use sni_router.Metrics.{ConnectionOutcome}
use sni_router.Delivery.Connection.{
  Course, Log, run, run_named, run_lookup, run_upstream, run_proxy, resolved, connected,
  proxy_outcome, proxy_end, lookup_failed, reject_unrecognized_name, hello_read, opened, HelloRead,
  Elapsed, cancellable,
}
use sni_router.Delivery.Connection.Ended.{
  is_rejected, is_proxied, is_inner, all_inner, IsEnded, IsPending, alerts_of, is_some,
  quit-IsEnded, record-IsPending,
}

proxy_outcome-is_proxied :
    (end : ProxyEnd)
    → (is_proxied (proxy_outcome end) ≡ true) × (is_rejected (proxy_outcome end) ≡ false)
unfolding is_proxied is_rejected proxy_outcome
proxy_outcome-is_proxied finished = (refl, refl)
proxy_outcome-is_proxied (Proxy.error e) = (refl, refl)
proxy_outcome-is_proxied idle = (refl, refl)
proxy_outcome-is_proxied forced = (refl, refl)

run_proxy-IsEnded :
    (course : Course) (stream : TcpStream) (log : Log)
    → IsPending course log
    → IsEnded course (run_proxy course stream log)
unfolding run_proxy enter drop_pass is_rejected is_proxied
run_proxy-IsEnded course stream log i =
    let (proxies, accepted) = proxy_outcome-is_proxied (proxy_end course) in
    elim (Bool-cases course.gate.state.closed) [
      | inl shut ↦
          rw shut
            record { alerts = i.alerts; stage = rw i.upstream refl; passes = refl; inner = i.inner }
      | inr open_gate ↦ rw open_gate record {
        alerts = rw accepted i.alerts;
        stage = rw proxies refl;
        passes = omega arith;
        inner = i.inner;
      }
    ]

connected-IsEnded :
    (course : Course) (await : Option (Result Elapsed (Result Failure TcpStream))) (log : Log)
    → IsPending course log
    → IsEnded course (connected course await log)
unfolding connected is_rejected is_proxied is_inner
connected-IsEnded course none log i = quit-IsEnded course log _ refl refl i
connected-IsEnded course (some (ok (ok stream))) log i =
    run_proxy-IsEnded course stream _ (record-IsPending course log _ refl i)
connected-IsEnded course (some (ok (err e))) log i =
    quit-IsEnded course _ _ refl refl (record-IsPending course log _ refl i)
connected-IsEnded course (some (err late)) log i =
    quit-IsEnded course _ _ refl refl (record-IsPending course log _ refl i)

reject-alerts :
    (course : Course) (log : Log)
    → log.alerts ≡ []
    → (reject_unrecognized_name course log).alerts ≡ alerts_of course
unfolding reject_unrecognized_name cancellable alerts_of
reject-alerts course log none_yet = elim (Bool-cases course.alert_cancelled) [
  | inl cut ↦ rw (reject_unrecognized_name, alerts_of, cut, none_yet) refl
  | inr free ↦ rw (reject_unrecognized_name, alerts_of, free, none_yet) refl
]

reject-rest :
    (course : Course) (log : Log)
    → reject_unrecognized_name course log
      ≡ record log { alerts = (reject_unrecognized_name course log).alerts }
unfolding reject_unrecognized_name cancellable
reject-rest course log = elim (Bool-cases course.alert_cancelled) [
  | inl cut ↦ rw (reject_unrecognized_name, cut) refl
  | inr free ↦ rw (reject_unrecognized_name, free) refl
]

-- A connection that is rejected for its name.
reject-IsEnded :
    (course : Course) (log : Log) (o : ConnectionOutcome)
    → is_rejected o ≡ true
    → is_proxied o ≡ false
    → IsPending course log
    → IsEnded course (reject_unrecognized_name course log, o)
reject-IsEnded course log o r p i =
    let rest = reject-rest course log in
    record {
      alerts = rw r (reject-alerts course log i.alerts);
      stage = rw p (ap (λ (l : Log). is_some l.upstream) rest ∙ ap is_some i.upstream);
      passes = ap (λ (l : Log). l.gate.state.proxying) rest ∙ rw i.gate refl;
      inner = ap (λ (l : Log). all_inner l.events) rest ∙ i.inner;
    }

lookup_failed-IsEnded :
    (course : Course) (e : RouteError) (log : Log)
    → IsPending course log
    → IsEnded course (lookup_failed course e log)
unfolding lookup_failed is_rejected is_proxied
lookup_failed-IsEnded course Routing.not_found log i = reject-IsEnded course log _ refl refl i
lookup_failed-IsEnded course lookup log i = quit-IsEnded course log _ refl refl i
lookup_failed-IsEnded course Routing.timeout log i = quit-IsEnded course log _ refl refl i

named-IsPending :
    (course : Course) (log : Log) (sni : Option Hostname) (backend : Option Backend)
    → IsPending course log
    → IsPending course (record log { sni = sni; backend = backend })
named-IsPending course log sni backend i = record {
  alerts = i.alerts;
  upstream = i.upstream;
  gate = i.gate;
  inner = i.inner;
}

run_upstream-IsEnded :
    (course : Course) (buffered : List ℕ) (route : RouteMatch) (log : Log)
    → IsPending course log
    → IsEnded course (run_upstream course buffered route log)
unfolding run_upstream
run_upstream-IsEnded course buffered route log i = connected-IsEnded course _ log i

resolved-IsEnded :
    (course : Course) (buffered : List ℕ) (await : Option (Result RouteError RouteMatch))
    (log : Log)
    → IsPending course log
    → IsEnded course (resolved course buffered await log)
unfolding resolved is_rejected is_proxied is_inner
resolved-IsEnded course buffered none log i = quit-IsEnded course log _ refl refl i
resolved-IsEnded course buffered (some (ok route)) log i =
    run_upstream-IsEnded course buffered route _
      (named-IsPending course _ _ _ (record-IsPending course log _ refl i))
resolved-IsEnded course buffered (some (err e)) log i =
    lookup_failed-IsEnded course e _ (record-IsPending course log _ refl i)

run_lookup-IsEnded :
    (course : Course) (buffered : List ℕ) (host : Hostname) (log : Log)
    → IsPending course log
    → IsEnded course (run_lookup course buffered host log)
unfolding run_lookup
run_lookup-IsEnded course buffered host log i = resolved-IsEnded course buffered _ log i

opened-IsPending : (course : Course) → IsPending course (opened course)
unfolding all_inner
opened-IsPending course = record { alerts = refl; upstream = refl; gate = refl; inner = refl }

run_named-IsEnded :
    (course : Course) (buffered : List ℕ) (name : Option Hostname)
    → IsEnded course (run_named course buffered name)
unfolding run_named is_rejected is_proxied
run_named-IsEnded course buffered none =
    reject-IsEnded course _ _ refl refl (opened-IsPending course)
run_named-IsEnded course buffered (some host) =
    run_lookup-IsEnded course buffered host _
      (named-IsPending course _ _ _ (opened-IsPending course))

hello_read-IsEnded :
    (course : Course) (await : Option (Result Elapsed HelloRead))
    → IsEnded course (hello_read course await)
unfolding hello_read is_rejected is_proxied
hello_read-IsEnded course none = quit-IsEnded course _ _ refl refl (opened-IsPending course)
hello_read-IsEnded course (some (err late)) =
    quit-IsEnded course _ _ refl refl (opened-IsPending course)
hello_read-IsEnded course (some (ok (err (parse e)))) =
    quit-IsEnded course _ _ refl refl (opened-IsPending course)
hello_read-IsEnded course (some (ok (err closed))) =
    quit-IsEnded course _ _ refl refl (opened-IsPending course)
hello_read-IsEnded course (some (ok (err io))) =
    quit-IsEnded course _ _ refl refl (opened-IsPending course)
hello_read-IsEnded course (some (ok (ok (buffered, hello)))) =
    run_named-IsEnded course buffered hello.sni

-- However the stages of a connection end, an alert is sent when the connection is rejected for its name and
-- shutdown has not begun by then, one alert of which the client gets the bytes that it takes, and else none; a
-- connection to the backend is proxied exactly when the outcome is one of the proxy stage; the pass is given
-- back; and no stage reports an opening, a total of bytes or a close.
pub run-IsEnded : (course : Course) → IsEnded course (run course)
unfolding run
run-IsEnded course = hello_read-IsEnded course _
