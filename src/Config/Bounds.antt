-- ===== src/Config/Bounds.antt =====
-- When the server's configuration is accepted.
use sni_router.Common.{
  ℕ, ◌*◌, ◌≤◌, ◌≡◌, refl, ap, sym, [], String, Result, ok, err, reject_if, ◌==◌, length, arith,
  >>=-eq-ok,
}
use sni_router.Config.Server.{
  RawServer, RouterConfig, ServerConfig, find_duplicate, reject_duplicate, in_range, idle_of,
  validate,
}
use sni_router.Config.{ConfigError, no_listen_addresses}

in_range-eq-ok :
    (value lo hi : ℕ) (field : String) (x : ℕ)
    → in_range value lo hi field ≡ ok x
    → (x ≡ value) × (lo ≤ x) × (x ≤ hi)
unfolding in_range
in_range-eq-ok value lo hi field x h = ground arith

abbrev value_or : ServerConfig → Result ConfigError ServerConfig → ServerConfig
value_or other (ok config) = config
value_or other (err e) = other

eq_of_ok-eq-ok : (a b : ServerConfig) → Path (Result ConfigError ServerConfig) (ok a) (ok b) → b ≡ a
eq_of_ok-eq-ok a b h = sym (ap (value_or a) h)

-- The bounds on what the router runs with.
pub record IsBounded (r : RouterConfig) : Type 0 where
  pub hello_timeout_least : 1 ≤ r.client_hello_timeout
  pub hello_timeout_most : r.client_hello_timeout ≤ 3600000
  pub lookup_timeout_least : 1 ≤ r.lookup_timeout
  pub lookup_timeout_most : r.lookup_timeout ≤ 3600000
  pub upstream_timeout_least : 1 ≤ r.upstream_timeout
  pub upstream_timeout_most : r.upstream_timeout ≤ 3600000
  pub grace_most : r.shutdown_grace ≤ 3600
  pub ttl_most : r.dns_cache_ttl ≤ 86400
  pub hello_least : 1024 ≤ r.hello_limits.max_handshake_bytes
  pub hello_most : r.hello_limits.max_handshake_bytes ≤ 65536
  pub records_least : 1 ≤ r.hello_limits.max_records
  pub records_most : r.hello_limits.max_records ≤ 256
  pub connections_least : 1 ≤ r.max_connections
  pub connections_most : r.max_connections ≤ 1000000
  pub lookups_least : 1 ≤ r.max_concurrent_dns_lookups
  pub lookups_most : r.max_concurrent_dns_lookups ≤ 256
  pub buffer_least : 1024 ≤ r.copy_buffer_size
  pub buffer_most : r.copy_buffer_size ≤ 1048576

-- A configuration that is accepted listens on the addresses that were given, and its timeouts other than that
-- of idle connections, the grace of a shutdown, the limits, the time to live of addresses and the size of the
-- buffers are within their bounds.
pub validate-IsBounded :
    (raw : RawServer) (config : ServerConfig)
    → validate raw ≡ ok config
    → (config.listen ≡ raw.listen) × IsBounded config.router
unfolding validate
validate-IsBounded raw config h0 =
    let (u0, some_listen, h1) =
      >>=-eq-ok (reject_if (length raw.listen == 0) no_listen_addresses) _ h0 in
    let (u1, distinct, h2) = >>=-eq-ok (reject_duplicate (find_duplicate [] raw.listen)) _ h1 in
    let (connections, r1, h3) =
      >>=-eq-ok (in_range raw.max_connections 1 1000000 "server.max_connections") _ h2 in
    let (hello, r2, h4) =
      >>=-eq-ok (in_range raw.client_hello_timeout_ms 1 3600000 "server.client_hello_timeout_ms") _
        h3 in
    let (lookup, r3, h5) =
      >>=-eq-ok (in_range raw.lookup_timeout_ms 1 3600000 "server.lookup_timeout_ms") _ h4 in
    let (upstream, r4, h6) =
      >>=-eq-ok (in_range raw.upstream_timeout_ms 1 3600000 "server.upstream_timeout_ms") _ h5 in
    let (idle, r5, h7) =
      >>=-eq-ok (in_range raw.idle_timeout_secs 0 (30 * 24 * 3600) "server.idle_timeout_secs") _
        h6 in
    let (grace, r6, h8) =
      >>=-eq-ok (in_range raw.shutdown_grace_secs 0 3600 "server.shutdown_grace_secs") _ h7 in
    let (size, r7, h9) =
      >>=-eq-ok (in_range raw.max_client_hello_bytes 1024 65536 "server.max_client_hello_bytes") _
        h8 in
    let (records, r8, h10) =
      >>=-eq-ok (in_range raw.max_client_hello_records 1 256 "server.max_client_hello_records") _
        h9 in
    let (ttl, r9, h11) =
      >>=-eq-ok (in_range raw.dns_cache_ttl_secs 0 (24 * 3600) "server.dns_cache_ttl_secs") _ h10 in
    let (lookups, r10, h12) =
      >>=-eq-ok (in_range raw.max_concurrent_dns_lookups 1 256 "server.max_concurrent_dns_lookups")
        _ h11 in
    let (buffer, r11, h13) =
      >>=-eq-ok (in_range raw.copy_buffer_bytes 1024 (1024 * 1024) "server.copy_buffer_bytes") _
        h12 in
    let connections_in =
      in_range-eq-ok raw.max_connections 1 1000000 "server.max_connections" connections r1 in
    let hello_in =
      in_range-eq-ok raw.client_hello_timeout_ms 1 3600000 "server.client_hello_timeout_ms" hello
        r2 in
    let lookup_in =
      in_range-eq-ok raw.lookup_timeout_ms 1 3600000 "server.lookup_timeout_ms" lookup r3 in
    let grace_in =
      in_range-eq-ok raw.shutdown_grace_secs 0 3600 "server.shutdown_grace_secs" grace r6 in
    let ttl_in =
      in_range-eq-ok raw.dns_cache_ttl_secs 0 (24 * 3600) "server.dns_cache_ttl_secs" ttl r9 in
    let upstream_in =
      in_range-eq-ok raw.upstream_timeout_ms 1 3600000 "server.upstream_timeout_ms" upstream r4 in
    let size_in =
      in_range-eq-ok raw.max_client_hello_bytes 1024 65536 "server.max_client_hello_bytes" size
        r7 in
    let records_in =
      in_range-eq-ok raw.max_client_hello_records 1 256 "server.max_client_hello_records" records
        r8 in
    let lookups_in =
      in_range-eq-ok raw.max_concurrent_dns_lookups 1 256 "server.max_concurrent_dns_lookups"
        lookups r10 in
    let buffer_in =
      in_range-eq-ok raw.copy_buffer_bytes 1024 (1024 * 1024) "server.copy_buffer_bytes" buffer
        r11 in
    let made : config ≡ record {
      listen = raw.listen;
      router = record {
        client_hello_timeout = hello;
        lookup_timeout = lookup;
        upstream_timeout = upstream;
        idle_timeout = idle_of idle;
        hello_limits = record { max_handshake_bytes = size; max_records = records };
        max_connections = connections;
        shutdown_grace = grace;
        dns_cache_ttl = ttl;
        max_concurrent_dns_lookups = lookups;
        copy_buffer_size = buffer;
      };
    } =
      eq_of_ok-eq-ok _ config h13 in
    rw made (
      refl,
      record {
        hello_timeout_least = hello_in.1;
        hello_timeout_most = hello_in.2;
        lookup_timeout_least = lookup_in.1;
        lookup_timeout_most = lookup_in.2;
        upstream_timeout_least = upstream_in.1;
        upstream_timeout_most = upstream_in.2;
        grace_most = grace_in.2;
        ttl_most = ttl_in.2;
        hello_least = size_in.1;
        hello_most = size_in.2;
        records_least = records_in.1;
        records_most = records_in.2;
        connections_least = connections_in.1;
        connections_most = connections_in.2;
        lookups_least = lookups_in.1;
        lookups_most = lookups_in.2;
        buffer_least = buffer_in.1;
        buffer_most = buffer_in.2;
      },
    )
