-- ===== src/Config/Server.antt =====
-- crates/sni_router_app/src/config/mod.rs: `RawServer` and its validation. Durations are in the unit that
-- their field names: milliseconds or seconds. The numbers are within 64 bits.
use sni_router.Common.{
  ℕ, ◌*◌, Bool, true, false, ◌&&◌, List, [], ◌∷◌, Option, none, some, String, Result, ok, err,
  ◌>>=◌, ◌>>◌, reject_if, length, ltb, leb, ◌==◌, if◌then◌else◌,
}
use sni_router.Lookup.Text.{str_eq}
use sni_router.Lookup.Ip.{IpAddr, v4, v6}
use sni_router.Protocol.{HelloLimits}
use sni_router.Lookup.Ip.{SocketAddr}
use sni_router.Config.{ConfigError, no_listen_addresses, duplicate_listen_address, out_of_range}

pub record RawServer : Type 0 where
  pub listen : List SocketAddr
  pub max_connections : ℕ
  pub client_hello_timeout_ms : ℕ
  pub lookup_timeout_ms : ℕ
  pub upstream_timeout_ms : ℕ
  pub idle_timeout_secs : ℕ
  pub shutdown_grace_secs : ℕ
  pub max_client_hello_bytes : ℕ
  pub max_client_hello_records : ℕ
  pub dns_cache_ttl_secs : ℕ
  pub max_concurrent_dns_lookups : ℕ
  pub copy_buffer_bytes : ℕ

-- `RouterConfig`, its timeouts in milliseconds and its other durations in seconds.
pub record RouterConfig : Type 0 where
  pub client_hello_timeout : ℕ
  pub lookup_timeout : ℕ
  pub upstream_timeout : ℕ
  pub idle_timeout : Option ℕ
  pub hello_limits : HelloLimits
  pub max_connections : ℕ
  pub shutdown_grace : ℕ
  pub dns_cache_ttl : ℕ
  pub max_concurrent_dns_lookups : ℕ
  pub copy_buffer_size : ℕ

pub record ServerConfig : Type 0 where
  pub listen : List SocketAddr
  pub router : RouterConfig

abbrev ip_eq : IpAddr → IpAddr → Bool
ip_eq (v4 a) (v4 b) = str_eq a b
ip_eq (v4 a) (v6 b) = false
ip_eq (v6 a) (v4 b) = false
ip_eq (v6 a) (v6 b) = str_eq a b

unfoldable pub addr_eq : SocketAddr → SocketAddr → Bool
addr_eq a b = ip_eq a.ip b.ip && a.port == b.port

unfoldable pub any_addr : SocketAddr → List SocketAddr → Bool
unfolding addr_eq
any_addr a [] = false
any_addr a (b ∷ rest) = if addr_eq b a then true else any_addr a rest

-- The first address that is not new to the set of those seen.
unfoldable pub find_duplicate : List SocketAddr → List SocketAddr → Option SocketAddr
unfolding any_addr
find_duplicate seen [] = none
find_duplicate seen (a ∷ rest) =
    let later = find_duplicate (a ∷ seen) rest in if any_addr a seen then some a else later

abbrev pub reject_duplicate : Option SocketAddr → Result ConfigError (Unit {0})
reject_duplicate none = ok tt
reject_duplicate (some a) = err (duplicate_listen_address a)

unfoldable pub in_range : ℕ → ℕ → ℕ → String → Result ConfigError ℕ
in_range value min max field =
    if leb min value && leb value max then ok value else err (out_of_range field min max)

abbrev pub idle_of : ℕ → Option ℕ
idle_of secs = if ltb 0 secs then some secs else none

unfoldable pub validate : RawServer → Result ConfigError ServerConfig
unfolding find_duplicate in_range
validate raw = do
  reject_if (length raw.listen == 0) no_listen_addresses
  reject_duplicate (find_duplicate [] raw.listen)
  max_connections ← in_range raw.max_connections 1 1000000 "server.max_connections"
  client_hello_timeout ←
      in_range raw.client_hello_timeout_ms 1 3600000 "server.client_hello_timeout_ms"
  lookup_timeout ← in_range raw.lookup_timeout_ms 1 3600000 "server.lookup_timeout_ms"
  upstream_timeout ← in_range raw.upstream_timeout_ms 1 3600000 "server.upstream_timeout_ms"
  idle_timeout_secs ← in_range raw.idle_timeout_secs 0 (30 * 24 * 3600) "server.idle_timeout_secs"
  shutdown_grace_secs ← in_range raw.shutdown_grace_secs 0 3600 "server.shutdown_grace_secs"
  max_client_hello_bytes ←
      in_range raw.max_client_hello_bytes 1024 65536 "server.max_client_hello_bytes"
  max_client_hello_records ←
      in_range raw.max_client_hello_records 1 256 "server.max_client_hello_records"
  dns_cache_ttl_secs ← in_range raw.dns_cache_ttl_secs 0 (24 * 3600) "server.dns_cache_ttl_secs"
  max_concurrent_dns_lookups ←
      in_range raw.max_concurrent_dns_lookups 1 256 "server.max_concurrent_dns_lookups"
  copy_buffer_bytes ← in_range raw.copy_buffer_bytes 1024 (1024 * 1024) "server.copy_buffer_bytes"
  ok (record {
    listen = raw.listen;
    router = record {
      client_hello_timeout = client_hello_timeout;
      lookup_timeout = lookup_timeout;
      upstream_timeout = upstream_timeout;
      idle_timeout = idle_of idle_timeout_secs;
      hello_limits = record {
        max_handshake_bytes = max_client_hello_bytes;
        max_records = max_client_hello_records;
      };
      max_connections = max_connections;
      shutdown_grace = shutdown_grace_secs;
      dns_cache_ttl = dns_cache_ttl_secs;
      max_concurrent_dns_lookups = max_concurrent_dns_lookups;
      copy_buffer_size = copy_buffer_bytes;
    };
  })
