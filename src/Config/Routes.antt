-- ===== src/Config/Routes.antt =====
-- crates/sni_router_app/src/config/routes.rs: the table of the routes in the file.
use sni_router.Common.{ℕ, suc, List, [], ◌∷◌, Result, ok, ◌>>=◌, ◌>>◌, map_err, reject_if}
use sni_router.Lookup.Text.{Str}
use sni_router.Lookup.Hostname.{is_some}
use sni_router.Lookup.RouteKey
use sni_router.Lookup.Backend
use sni_router.Lookup.Memory
use sni_router.Lookup.Memory.{InMemoryLookup}
use sni_router.Config.{ConfigError, invalid_route_hostname, invalid_route_backend, duplicate_route}

pub record RawRoute : Type 0 where
  pub hostname : Str
  pub backend : Str

-- The loop, from the route at the index on.
unfoldable pub add_routes : ℕ → List RawRoute → InMemoryLookup → Result ConfigError InMemoryLookup
add_routes index [] table = ok table
add_routes index (route ∷ routes) table = do
  key ← map_err (RouteKey.parse route.hostname) (invalid_route_hostname index route.hostname)
  backend ← map_err (Backend.from_str route.backend) (invalid_route_backend index route.backend)
  let (inserted, before) = Memory.insert table key backend
  reject_if (is_some before) (duplicate_route key.text)
  add_routes (suc index) routes inserted

unfoldable pub build_route_table : List RawRoute → Result ConfigError InMemoryLookup
unfolding add_routes
build_route_table routes = add_routes 0 routes Memory.new
