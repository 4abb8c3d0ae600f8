-- ===== src/Witnesses/Config.antt =====
-- The theorems on the configuration, applied to the default server and to a file with one route.
use sni_router.Common.{◌≡◌, ◌⊎◌, refl, Bool, true, false, List, [], ◌∷◌, some, Result, ok, err}
use sni_router.Lookup.Text.{Str, to_ascii_lowercase, contains, strip_prefix, rsplit_once}
use sni_router.Lookup.Names.{validate_dns_name}
use sni_router.Lookup.Ip.{v4, parse_ip}
use sni_router.Lookup.Hostname
use sni_router.Lookup.RouteKey
use sni_router.Lookup.RouteKey.{RouteKey}
use sni_router.Lookup.Backend
use sni_router.Lookup.Backend.{Backend, dns, split_host_port, parse_backend_host, parse_u16}
use sni_router.Lookup.Memory
use sni_router.Lookup.Memory.{InMemoryLookup, map_get, map_insert}
use sni_router.Lookup.Ip.{SocketAddr}
use sni_router.Config.{ConfigError, read_failed}
use sni_router.Config.App
use sni_router.Config.App.{RawAdmin, AdminConfig, RawConfig}
use sni_router.Config.Reload.{FileRouteLookup, StartupSettings, reload_all}
use sni_router.Config.Reloads.{AllFail, IsLastValid, reload_all-IsLastValid}
use sni_router.Admin
use sni_router.Admin.{Health, get}
use sni_router.Config.Routes.{RawRoute, add_routes, build_route_table}
use sni_router.Config.Server.{RawServer, ServerConfig, find_duplicate, any_addr, in_range, validate}
use sni_router.Config.Bounds.{IsBounded, validate-IsBounded}
use sni_router.Config.Table.{AreParsed, entry_of, build_route_table_lem}

abbrev addr : SocketAddr
addr = record { ip = v4 (0 ∷ 0 ∷ 0 ∷ 0 ∷ []); port = 8080 }

abbrev raw : RawServer
raw = record {
  listen = addr ∷ [];
  max_connections = 10000;
  client_hello_timeout_ms = 5000;
  lookup_timeout_ms = 2000;
  upstream_timeout_ms = 5000;
  idle_timeout_secs = 1800;
  shutdown_grace_secs = 30;
  max_client_hello_bytes = 32768;
  max_client_hello_records = 32;
  dns_cache_ttl_secs = 30;
  max_concurrent_dns_lookups = 64;
  copy_buffer_bytes = 32768;
}

abbrev validated : ServerConfig
validated = record {
  listen = addr ∷ [];
  router = record {
    client_hello_timeout = 5000;
    lookup_timeout = 2000;
    upstream_timeout = 5000;
    idle_timeout = some 1800;
    hello_limits = record { max_handshake_bytes = 32768; max_records = 32 };
    max_connections = 10000;
    shutdown_grace = 30;
    dns_cache_ttl = 30;
    max_concurrent_dns_lookups = 64;
    copy_buffer_size = 32768;
  };
}

validates : validate raw ≡ ok validated
unfolding validate find_duplicate any_addr in_range
validates = refl

validate-IsBounded_example : (validated.listen ≡ raw.listen) × IsBounded validated.router
validate-IsBounded_example = validate-IsBounded raw validated validates

-- "a.b" to "h:1".
abbrev route : RawRoute
route = record { hostname = b'a' ∷ b'.' ∷ b'b' ∷ []; backend = b'h' ∷ b':' ∷ b'1' ∷ [] }

abbrev table : InMemoryLookup
table = record {
  routes =
      (
        record { text = b'a' ∷ b'.' ∷ b'b' ∷ []; wildcard = false },
        record { host = dns (b'h' ∷ []); port = 1 },
      )
      ∷ [];
}

builds : build_route_table (route ∷ []) ≡ ok table
unfolding build_route_table add_routes RouteKey.parse Hostname.parse validate_dns_name parse_ip
    to_ascii_lowercase contains strip_prefix Backend.from_str split_host_port parse_backend_host
    parse_u16 rsplit_once Memory.insert Memory.new map_get map_insert
builds = refl

build_route_table_lem_example :
    (entries : List (RouteKey × Backend)) × AreParsed (route ∷ []) entries
    × ((key : RouteKey) → Memory.get table key ≡ entry_of entries key)
build_route_table_lem_example = build_route_table_lem (route ∷ []) table builds

abbrev no_spaces : Str → Bool
no_spaces path = false

abbrev admin : RawAdmin
admin = record { listen = addr; health_path = b'/' ∷ b'h' ∷ [] }

abbrev admin_config : AdminConfig
admin_config = record { listen = addr; health_path = b'/' ∷ b'h' ∷ [] }

abbrev draining : Health
draining = record { draining = true }

abbrev encoding : Str
encoding = b'm' ∷ []

-- Every text parses to the same sections, without routes.
abbrev sections : Str → Result ConfigError RawConfig
sections source = ok (record { server = raw; admin = admin; routes = [] })

abbrev startup : StartupSettings
startup = record { server = validated; admin = admin_config }

abbrev two_files : List (Result ConfigError Str)
two_files = ok [] ∷ err read_failed ∷ []

abbrev started_with : FileRouteLookup
started_with = record { table = record { routes = [] } }

reload_all-IsLastValid_example :
    (AllFail no_spaces sections two_files
      × (reload_all no_spaces sections two_files startup started_with ≡ started_with))
    ⊎ IsLastValid no_spaces sections two_files
        (reload_all no_spaces sections two_files startup started_with)
reload_all-IsLastValid_example =
    reload_all-IsLastValid no_spaces sections two_files startup started_with
