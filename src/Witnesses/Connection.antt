-- ===== src/Witnesses/Connection.antt =====
-- The theorems on connections, applied to a client whose ClientHello arrives in two records, byte by byte.
use sni_router.Common.{
  ℕ, ◌≤◌, ◌≡◌, ◌⊎◌, refl, false, List, [], ◌∷◌, ◌++◌, some, ok, err, arith, length, replicate,
}
use sni_router.Lookup.Ip.{v4, SocketAddr}
use sni_router.Lookup.RouteKey
use sni_router.Lookup.RouteKey.{RouteKey, key_eq}
use sni_router.Lookup.Text.{str_eq}
use sni_router.Lookup.Backend.{Backend, ip}
use sni_router.Lookup.Memory
use sni_router.Lookup.Memory.{InMemoryLookup, hits, map_get}
use sni_router.Protocol.{ClientHelloInfo, default_limits}
use sni_router.Protocol.Record.Wire.{wire}
use sni_router.Routing.{RouteMatch, answered}
use sni_router.Routing.Precedence.{route_of, memory-IsServing}
use sni_router.Metrics.{tcp}
use sni_router.Delivery.HelloReader.{Read, yields, returns, read_client_hello}
use sni_router.Delivery.HelloReader.Bound.{read_client_hello-Carries}
use sni_router.Delivery.Gate
use sni_router.Delivery.Resolver.{Failure, not_found}
use sni_router.Delivery.Upstream.{Network, TcpStream, connect, connect_backend, connect_any}
use sni_router.Delivery.Upstream.Laws.{IsFirst, AllFail, connect_any_lem}
use sni_router.Delivery.Connection.{Course, dropped, run, handle_connection}
use sni_router.Delivery.Connection.Outcomes.{run-IsEnded}
use sni_router.Delivery.Connection.Ended.{IsEnded}
use sni_router.Delivery.Connection.Close.{IsClosed, outcome_of, handle_connection-IsClosed}
use sni_router.Delivery.Connection.Serves.{IsUndisturbed, IsReachable, IsProxied, run-serves}
use sni_router.Delivery.Connection.Committed.{HasCommitted, run-committed}
use sni_router.Witnesses.Data.{host_ab, body, two_records, two_records-Carries, body_parses}

abbrev addr : SocketAddr
addr = record { ip = v4 (10 ∷ 0 ∷ 0 ∷ 1 ∷ []); port = 443 }

abbrev net : Network
net = record {
  connect = λ a. ok tt;
  set_nodelay = λ a. ok tt;
  write_all = λ a bytes. ok tt;
  resolve = λ name port. ok (addr ∷ []);
}

abbrev backend : Backend
backend = record { host = ip addr.ip; port = 443 }

abbrev route : RouteMatch
route = record { key = record { text = host_ab.text; wildcard = false }; backend = backend }

abbrev table : InMemoryLookup
table = record { routes = (route.key, backend) ∷ [] }

abbrev reads : List Read
reads = replicate 80 (yields 0)

abbrev info : ClientHelloInfo
info = record { sni = some host_ab; consumed = 76 }

comes :
    (b : List ℕ) × (rest : List ℕ) × (b ++ rest ≡ wire two_records ++ 0x17 ∷ [])
    × (read_client_hello default_limits (wire two_records ++ 0x17 ∷ []) reads
        ≡ returns (ok (b, info)))
comes =
    read_client_hello-Carries default_limits body two_records (0x17 ∷ []) (some host_ab) reads
      two_records-Carries body_parses (omega arith) tt

abbrev course : Course
course = record {
  listener = tcp addr;
  hello = ok (comes.0, info);
  hello_cancelled = false;
  hello_late = false;
  alert_cancelled = false;
  alert_taken = 7;
  store = λ c. answered (hits table c);
  lookup_cancelled = false;
  lookup_time = 3;
  network = net;
  upstream_cancelled = false;
  upstream_late = false;
  upstream_time = 4;
  gate = Gate.new;
  force_cancelled = false;
  idle_expired = false;
  copied = ok tt;
}

abbrev stream : TcpStream
stream = record { peer = addr; written = [] }

routed : route_of (Memory.get table) host_ab ≡ ok route
unfolding route_of RouteKey.exact Memory.get map_get key_eq str_eq
routed = refl

reachable : IsReachable net backend stream
unfolding connect_backend connect
reachable = record { connects = refl; no_delay = refl; writes = λ bytes. refl }

calm : IsUndisturbed course
unfolding Gate.new
calm = record {
  hello = refl;
  hello_in_time = refl;
  lookup = refl;
  upstream = refl;
  upstream_in_time = refl;
  gate = refl;
}

run-serves_example :
    (sent : List ℕ) × (rest : List ℕ) × (sent ++ rest ≡ wire two_records ++ 0x17 ∷ [])
    × (length (wire two_records) ≤ length sent)
    × IsProxied course host_ab route (record stream { written = sent }) (run course)
run-serves_example =
    run-serves default_limits body two_records (0x17 ∷ []) host_ab reads (Memory.get table) route
      stream course two_records-Carries body_parses (omega arith) tt comes.3
      (memory-IsServing table) routed refl reachable calm

run-committed_example : HasCommitted course (record stream { written = run-serves_example.0 })
run-committed_example = run-committed course _ run-serves_example.4.upstream

run-IsEnded_example : IsEnded course (run course)
run-IsEnded_example = run-IsEnded course

handle_connection-IsClosed_example :
    IsClosed
      (handle_connection course (dropped 1) 9 78 5)
      (tcp addr)
      (outcome_of course (dropped 1))
      9
      78
      5
handle_connection-IsClosed_example = handle_connection-IsClosed course (dropped 1) 9 78 5

connect_any_lem_example :
    ((stream : TcpStream) × (connect_any net (addr ∷ []) ≡ ok stream)
      × IsFirst net (addr ∷ []) stream.peer
      × (stream.written ≡ []))
    ⊎ ((e : Failure) × (connect_any net (addr ∷ []) ≡ err e) × AllFail net (addr ∷ []) not_found e)
connect_any_lem_example = connect_any_lem net (addr ∷ [])
