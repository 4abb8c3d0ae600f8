-- ===== src/Delivery/Upstream/Laws.antt =====
-- crates/sni_router/src/delivery/connection.rs: which address is connected to, and what is written to it.
use sni_router.Common.{
  ℕ, ◌≡◌, ◌⊎◌, refl, sym, ap, subst, ◌∙◌, List, [], ◌∷◌, ◌++◌, Option, none, some, Result, ok, err,
  >>=-eq-ok, Result-cases, inl, inr,
}
use sni_router.Lookup.Text.{Str}
use sni_router.Lookup.Ip.{IpAddr, SocketAddr}
use sni_router.Lookup.Backend.{Backend, BackendHost, ip, dns}
use sni_router.Delivery.Resolver.{Failure, not_found}
use sni_router.Delivery.Upstream.{
  Network, TcpStream, connect, connect_first, connect_any, connect_backend, connect_and_replay,
}

-- A connection to each of the addresses fails.
abbrev pub AreRefused : Network → List SocketAddr → Type 0
AreRefused net [] = Unit
AreRefused net (addr ∷ addrs) = ((e : Failure) × (net.connect addr ≡ err e)) × AreRefused net addrs

-- The address is the first of the list that a connection to succeeds; all those before it failed.
pub record IsFirst (net : Network) (addrs : List SocketAddr) (addr : SocketAddr) : Type 0 where
  pub before : List SocketAddr
  pub after : List SocketAddr
  pub split : addrs ≡ before ++ addr ∷ after
  pub connects : net.connect addr ≡ ok tt
  pub refused : AreRefused net before

-- Every connection fails, and the error is that of the last, or says that there was none to try.
pub data AllFail (net : Network) : List SocketAddr → Failure → Failure → Type 0 where
  end : (e : Failure) → AllFail net [] e e
  next :
      (addr : SocketAddr) (addrs : List SocketAddr) (d e last : Failure)
      → net.connect addr ≡ err e
      → AllFail net addrs e last
      → AllFail net (addr ∷ addrs) d last

-- What `connect_any` answers.
abbrev Answers : Network → List SocketAddr → Failure → Result Failure TcpStream → Type 0
Answers net addrs last (ok stream) = IsFirst net addrs stream.peer × (stream.written ≡ [])
Answers net addrs last (err e) = AllFail net addrs last e

connect-ok :
    (net : Network) (addr : SocketAddr) (stream : TcpStream)
    → connect net addr ≡ ok stream
    → (stream ≡ record { peer = addr; written = [] }) × (net.connect addr ≡ ok tt)
unfolding connect
connect-ok net addr stream h =
    let (done, made, same) = >>=-eq-ok (net.connect addr) _ h in (cc, made)

connect-err :
    (net : Network) (addr : SocketAddr) (e : Failure)
    → connect net addr ≡ err e
    → net.connect addr ≡ err e
unfolding connect
connect-err net addr e h = elim (Result-cases (net.connect addr)) [
  | inl (done, made) ↦ absurd (cc (rw (connect, made) at h))
  | inr (d, failed) ↦ cc (failed, rw (connect, failed) at h)
]

later_first :
    (net : Network) (addr : SocketAddr) (addrs : List SocketAddr) (d e : Failure)
    (r : Result Failure TcpStream)
    → net.connect addr ≡ err e
    → Answers net addrs e r
    → Answers net (addr ∷ addrs) d r
later_first net addr addrs d e (ok stream) h (i, new) = (
  record {
    before = addr ∷ i.before;
    after = i.after;
    split = ap (λ rest. addr ∷ rest) i.split;
    connects = i.connects;
    refused = ((e, h), i.refused);
  },
  new,
)
later_first net addr addrs d e (err last) h i = next addr addrs d e last h i

connect_first-Answers :
    (net : Network) (addrs : List SocketAddr) (last : Option Failure)
    → Answers net addrs (elim last [ none ↦ not_found | some e ↦ e ]) (connect_first net addrs last)
unfolding connect_first
connect_first-Answers net [] none = end not_found
connect_first-Answers net [] (some e) = end e
connect_first-Answers net (addr ∷ addrs) last = elim (Result-cases (connect net addr)) [
  | inl (stream, made) ↦
      let (same, connects) = connect-ok net addr stream made in
      let place : stream.peer ≡ addr = ap (λ (t : TcpStream). t.peer) same in
      rw (connect_first, made)
        (
          record {
            before = [];
            after = addrs;
            split = rw place refl;
            connects = rw place connects;
            refused = tt;
          },
          ap (λ (t : TcpStream). t.written) same,
        )
  | inr (e, failed) ↦
      rw (connect_first, failed)
        (later_first net addr addrs _ e (connect_first net addrs (some e))
          (connect-err net addr e failed) (connect_first-Answers net addrs (some e)))
]

-- The first address of the list that a connection to succeeds is the one that is used: a connection to each
-- address before it fails. If there is none the
-- error is that of the last connection tried, or says that there was no address.
pub connect_any_lem :
    (net : Network) (addrs : List SocketAddr)
    → ((stream : TcpStream) × (connect_any net addrs ≡ ok stream)
        × IsFirst net addrs stream.peer
        × (stream.written ≡ []))
      ⊎ ((e : Failure) × (connect_any net addrs ≡ err e) × AllFail net addrs not_found e)
unfolding connect_any
connect_any_lem net addrs = elim (Result-cases (connect_any net addrs)) [
  | inl (stream, made) ↦
      let (first, new) =
        subst (Answers net addrs not_found) made (connect_first-Answers net addrs none) in
      inl (stream, made, first, new)
  | inr (e, failed) ↦
      inr (
        e,
        failed,
        subst (Answers net addrs not_found) failed (connect_first-Answers net addrs none),
      )
]

-- The addresses of a backend: its own, or the first of those of its name that a connection to succeeds.
pub data IsAddressOf (net : Network) (backend : Backend) (addr : SocketAddr) : Type 0 where
  own :
      (address : IpAddr)
      → backend.host ≡ ip address
      → addr ≡ record { ip = address; port = backend.port }
      → net.connect addr ≡ ok tt
      → IsAddressOf net backend addr
  resolved :
      (name : Str) (addrs : List SocketAddr)
      → backend.host ≡ dns name
      → net.resolve name backend.port ≡ ok addrs
      → IsFirst net addrs addr
      → IsAddressOf net backend addr

connect_backend-ok :
    (net : Network) (backend : Backend) (stream : TcpStream)
    → connect_backend net backend ≡ ok stream
    → (stream.written ≡ []) × IsAddressOf net backend stream.peer
unfolding connect_backend
connect_backend-ok net backend stream h = host backend.host refl
  where
    host :
        (h' : BackendHost)
        → backend.host ≡ h'
        → (stream.written ≡ []) × IsAddressOf net backend stream.peer
    host (ip address) e =
        let (same, made) = connect-ok net _ stream (rw (connect_backend, e) at h) in
        (
          ap (λ (t : TcpStream). t.written) same,
          own address e (ap (λ (t : TcpStream). t.peer) same) (rw same made),
        )
    host (dns name) e =
        let (addrs, found, made) =
          >>=-eq-ok (net.resolve name backend.port) _ (rw (connect_backend, e) at h) in
        elim (connect_any_lem net addrs) [
          | inl (other, done, first, new) ↦
              let same : other ≡ stream = cc (done, made) in
              (
                rw same at new,
                resolved name addrs e found
                    (subst (λ (t : TcpStream). IsFirst net addrs t.peer) same first),
              )
          | inr (f, failed, all) ↦ absurd (cc (failed, made))
        ]

-- A connection that is open for the proxy stage has got exactly the bytes that were buffered, and is to an
-- address of the backend.
pub connect_and_replay-ok :
    (net : Network) (backend : Backend) (buffered : List ℕ) (stream : TcpStream)
    → connect_and_replay net backend buffered ≡ ok stream
    → (stream.written ≡ buffered) × IsAddressOf net backend stream.peer
unfolding connect_and_replay
connect_and_replay-ok net backend buffered stream h =
    let (conn, made, h2) = >>=-eq-ok (connect_backend net backend) _ h in
    let (done, delay, h3) = >>=-eq-ok (net.set_nodelay conn.peer) _ h2 in
    let (done', wrote, same) = >>=-eq-ok (net.write_all conn.peer buffered) _ h3 in
    let (new, place) = connect_backend-ok net backend conn made in
    let same : stream ≡ record conn { written = conn.written ++ buffered } = cc in
    (
      ap (λ (t : TcpStream). t.written) same ∙ ap (λ w. w ++ buffered) new,
      subst (IsAddressOf net backend) (sym (ap (λ (t : TcpStream). t.peer) same)) place,
    )
