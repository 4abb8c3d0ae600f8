-- ===== src/Config/App.antt =====
-- crates/sni_router_app/src/config/mod.rs: the admin section, and the whole of a config file. What the TOML
-- parser makes of a text, and which texts have white space in Unicode, are parameters.
use sni_router.Common.{
  ℕ, Bool, false, ◌||◌, List, [], ◌∷◌, Result, ok, ◌>>=◌, ◌>>◌, reject_if, ◌==◌, not,
}
use sni_router.Lookup.Text.{Str, str_eq}
use sni_router.Lookup.Ip.{SocketAddr}
use sni_router.Lookup.Memory.{InMemoryLookup}
use sni_router.Config.{ConfigError, invalid_health_path}
use sni_router.Config.Server
use sni_router.Config.Server.{RawServer, ServerConfig}
use sni_router.Config.Routes.{RawRoute, build_route_table}

pub record RawAdmin : Type 0 where
  pub listen : SocketAddr
  pub health_path : Str

pub record AdminConfig : Type 0 where
  pub listen : SocketAddr
  pub health_path : Str

abbrev starts_with : ℕ → Str → Bool
starts_with c [] = false
starts_with c (x ∷ xs) = x == c

-- "/metrics".
abbrev pub metrics_path : Str
metrics_path = b'/' ∷ b'm' ∷ b'e' ∷ b't' ∷ b'r' ∷ b'i' ∷ b'c' ∷ b's' ∷ []

pub record RawConfig : Type 0 where
  pub server : RawServer
  pub admin : RawAdmin
  pub routes : List RawRoute

pub record AppConfig : Type 0 where
  pub server : ServerConfig
  pub admin : AdminConfig
  pub routes : InMemoryLookup

module _ (has_whitespace : Str → Bool) where
  abbrev pub is_refused : Str → Bool
  is_refused path = not (starts_with b'/' path) || str_eq path metrics_path || has_whitespace path

  unfoldable pub validate : RawAdmin → Result ConfigError AdminConfig
  unfolding str_eq
  validate raw = do
    reject_if (is_refused raw.health_path) (invalid_health_path raw.health_path)
    ok (record { listen = raw.listen; health_path = raw.health_path })

  module _ (from_str : Str → Result ConfigError RawConfig) where
    unfoldable pub from_toml_str : Str → Result ConfigError AppConfig
    unfolding validate Server.validate build_route_table
    from_toml_str source = do
      raw ← from_str source
      server ← Server.validate raw.server
      admin ← validate raw.admin
      routes ← build_route_table raw.routes
      ok (record { server = server; admin = admin; routes = routes })

    -- The file, if it can be read, is its text.
    unfoldable pub load : Result ConfigError Str → Result ConfigError AppConfig
    unfolding from_toml_str
    load file = do source ← file; from_toml_str source
