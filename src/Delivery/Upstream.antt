-- ===== src/Delivery/Upstream.antt =====
-- crates/sni_router/src/delivery/connection.rs: the connection to the backend. The network and the system's
-- resolver are parameters: what an operation on a socket answers, error or not.
pub mod Laws
use sni_router.Common.{ℕ, List, [], ◌∷◌, ◌++◌, Option, none, some, Result, ok, err, ◌>>=◌, ◌>>◌}
use sni_router.Lookup.Text.{Str}
use sni_router.Lookup.Ip.{IpAddr, SocketAddr}
use sni_router.Lookup.Backend.{Backend, BackendHost, ip, dns}
use sni_router.Delivery.Resolver.{Failure, not_found}

-- Whether each operation fails, and the addresses of a name.
pub record Network : Type 0 where
  pub connect : SocketAddr → Result Failure (Unit {0})
  pub set_nodelay : SocketAddr → Result Failure (Unit {0})
  pub write_all : SocketAddr → List ℕ → Result Failure (Unit {0})
  pub resolve : Str → ℕ → Result Failure (List SocketAddr)

-- A connection that the router has opened, by the address of its other end and all that was written to it.
pub record TcpStream : Type 0 where
  pub peer : SocketAddr
  pub written : List ℕ

unfoldable pub connect : Network → SocketAddr → Result Failure TcpStream
connect net addr = do net.connect addr; ok (record { peer = addr; written = [] })

abbrev last_or_not_found : Option Failure → Failure
last_or_not_found none = not_found
last_or_not_found (some error) = error

-- The loop of `connect_any`, with its last error.
unfoldable pub connect_first : Network → List SocketAddr → Option Failure → Result Failure TcpStream
unfolding connect
connect_first net [] last = err (last_or_not_found last)
connect_first net (addr ∷ addrs) last = elim (connect net addr) [
  | ok stream ↦ ok stream
  | err error ↦ connect_first net addrs (some error)
]

unfoldable pub connect_any : Network → List SocketAddr → Result Failure TcpStream
unfolding connect_first
connect_any net addrs = connect_first net addrs none

unfoldable pub connect_backend : Network → Backend → Result Failure TcpStream
unfolding connect connect_any
connect_backend net backend = elim backend.host [
  | ip address ↦ connect net (record { ip = address; port = backend.port })
  | dns name ↦ do addrs ← net.resolve name backend.port; connect_any net addrs
]

unfoldable pub connect_and_replay : Network → Backend → List ℕ → Result Failure TcpStream
unfolding connect_backend
connect_and_replay net backend buffered = do
  stream ← connect_backend net backend
  net.set_nodelay stream.peer
  net.write_all stream.peer buffered
  ok (record stream { written = stream.written ++ buffered })
