-- ===== src/Admin/Paths.antt =====
-- What the administration server answers under an accepted configuration.
use sni_router.Common.{◌∙◌, not, Option, none, Result, err, ◌>>=◌, arith, if◌then◌else◌}
use sni_router.Common
use sni_router.Lookup.Text.{Str}
use sni_router.Config.App.{AdminConfig}
use sni_router.Admin
use sni_router.Admin.{AdminRoutes, Health}

abbrev pub serving : AdminConfig → Option Str → Health → AdminRoutes
serving config registry health = record {
  registry = registry;
  health_path = config.health_path;
  health = health;
}
