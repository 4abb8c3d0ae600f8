-- ===== src/Config.antt =====
-- crates/sni_router_app/src/config: the validation of the configuration, and the table of its routes. The
-- TOML parser and the file are outside: the raw records are inputs.
pub mod Routes
pub mod App
pub mod Reload
pub mod Reloads
pub mod Server
pub mod Table
pub mod Bounds
use sni_router.Common.{ℕ, String}
use sni_router.Lookup.Text.{Str}
use sni_router.Lookup.Names.{NameError}
use sni_router.Lookup.Ip.{SocketAddr}

-- The errors of the file and of its parser carry no more here than that they happened.
pub data ConfigError : Type 0 where
  read_failed parse_failed : ConfigError
  invalid_health_path : Str → ConfigError
  no_listen_addresses : ConfigError
  duplicate_listen_address : SocketAddr → ConfigError
  out_of_range : String → ℕ → ℕ → ConfigError
  invalid_route_hostname : ℕ → Str → NameError → ConfigError
  invalid_route_backend : ℕ → Str → NameError → ConfigError
  duplicate_route : Str → ConfigError
