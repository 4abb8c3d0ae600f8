-- ===== src/Config/Reload.antt =====
-- crates/sni_router_app/src/reload.rs and config/routes.rs: the table that a reload swaps.
use sni_router.Common.{
  ℕ, Bool, true, false, ◌&&◌, ◌||◌, List, [], ◌∷◌, Option, none, some, Result, ok, err, ◌==◌, not,
}
use sni_router.Lookup.Text.{Str, str_eq}
use sni_router.Lookup.Ip.{SocketAddr}
use sni_router.Protocol.{HelloLimits}
use sni_router.Lookup.Routes.{RouteCandidates}
use sni_router.Lookup.Memory
use sni_router.Lookup.Memory.{InMemoryLookup}
use sni_router.Routing.{LookupEnd, answered}
use sni_router.Config.{ConfigError}
use sni_router.Config.Server.{RouterConfig, ServerConfig, addr_eq}
use sni_router.Config.App.{AdminConfig, AppConfig, RawConfig, load}

-- The table behind the lock.
pub record FileRouteLookup : Type 0 where
  pub table : InMemoryLookup

unfoldable pub new : InMemoryLookup → FileRouteLookup
new table = record { table = table }

unfoldable pub replace : FileRouteLookup → InMemoryLookup → FileRouteLookup
replace l table = record { table = table }

unfoldable pub snapshot : FileRouteLookup → InMemoryLookup
snapshot l = l.table

unfoldable pub len : FileRouteLookup → ℕ
unfolding snapshot Memory.len
len l = Memory.len (snapshot l)

unfoldable pub is_empty : FileRouteLookup → Bool
unfolding len
is_empty l = len l == 0

unfoldable pub lookup : FileRouteLookup → RouteCandidates → LookupEnd
unfolding snapshot Memory.hits
lookup l c = answered (Memory.hits (snapshot l) c)

pub record StartupSettings : Type 0 where
  pub server : ServerConfig
  pub admin : AdminConfig

pub record ReloadOutcome : Type 0 where
  pub routes : ℕ
  pub ignored_restart_only_changes : Bool

-- `PartialEq` of the settings, field by field.
abbrev addrs_eq : List SocketAddr → List SocketAddr → Bool
addrs_eq [] [] = true
addrs_eq [] (b ∷ bs) = false
addrs_eq (a ∷ rest) [] = false
addrs_eq (a ∷ rest) (b ∷ bs) = addr_eq a b && addrs_eq rest bs

abbrev idle_eq : Option ℕ → Option ℕ → Bool
idle_eq none none = true
idle_eq none (some b) = false
idle_eq (some a) none = false
idle_eq (some a) (some b) = a == b

abbrev limits_eq : HelloLimits → HelloLimits → Bool
limits_eq a b = a.max_handshake_bytes == b.max_handshake_bytes && a.max_records == b.max_records

abbrev router_eq : RouterConfig → RouterConfig → Bool
router_eq a b =
    a.client_hello_timeout == b.client_hello_timeout
    && a.lookup_timeout == b.lookup_timeout
    && a.upstream_timeout == b.upstream_timeout
    && idle_eq a.idle_timeout b.idle_timeout
    && limits_eq a.hello_limits b.hello_limits
    && a.max_connections == b.max_connections
    && a.shutdown_grace == b.shutdown_grace
    && a.dns_cache_ttl == b.dns_cache_ttl
    && a.max_concurrent_dns_lookups == b.max_concurrent_dns_lookups
    && a.copy_buffer_size == b.copy_buffer_size

unfoldable pub server_eq : ServerConfig → ServerConfig → Bool
server_eq a b = addrs_eq a.listen b.listen && router_eq a.router b.router

unfoldable pub admin_eq : AdminConfig → AdminConfig → Bool
admin_eq a b = addr_eq a.listen b.listen && str_eq a.health_path b.health_path

-- Behind the load of the file.
unfoldable pub reloaded :
    Result ConfigError AppConfig
    → StartupSettings
    → FileRouteLookup
    → FileRouteLookup × Result ConfigError ReloadOutcome
unfolding replace server_eq admin_eq
reloaded (err e) startup l = (l, err e)
reloaded (ok config) startup l = (
  replace l config.routes,
  ok (record {
    routes = Memory.len config.routes;
    ignored_restart_only_changes =
        not (server_eq config.server startup.server) || not (admin_eq config.admin startup.admin);
  }),
)

module _ (has_whitespace : Str → Bool) (from_str : Str → Result ConfigError RawConfig) where
  unfoldable pub reload_from_path :
      Result ConfigError Str
      → StartupSettings
      → FileRouteLookup
      → FileRouteLookup × Result ConfigError ReloadOutcome
  unfolding reloaded load
  reload_from_path file startup l = reloaded (load has_whitespace from_str file) startup l

  -- A reload for each signal, with the file as it is then.
  unfoldable pub reload_all :
      List (Result ConfigError Str) → StartupSettings → FileRouteLookup → FileRouteLookup
  unfolding reload_from_path
  reload_all [] startup l = l
  reload_all (file ∷ files) startup l = reload_all files startup (reload_from_path file startup l).0
