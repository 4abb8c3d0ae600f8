-- ===== src/Admin.antt =====
-- crates/sni_router_app/src/admin.rs: what the administration server answers. The registry's text, if it can
-- be encoded, is an input; the HTTP server, which takes the path out of the URI, is outside.
pub mod Paths
use sni_router.Common.{Bool, true, false, Option, none, some, String, if◌then◌else◌}
use sni_router.Lookup.Text.{Str, str_eq}
use sni_router.Config.App.{metrics_path}

pub record Health : Type 0 where
  pub draining : Bool

unfoldable pub new : Health
new = record { draining = false }

unfoldable pub set_draining : Health → Health
set_draining health = record { draining = true }

unfoldable pub is_draining : Health → Bool
is_draining health = health.draining

pub record AdminRoutes : Type 0 where
  pub registry : Option Str
  pub health_path : Str
  pub health : Health

pub data Method : Type 0 where
  get other : Method

pub record Request : Type 0 where
  pub method : Method
  pub path : Str

pub data StatusCode : Type 0 where
  ok not_found method_not_allowed service_unavailable internal_server_error : StatusCode

pub data Body : Type 0 where
  fixed : String → Body
  encoded : Str → Body

pub record Response : Type 0 where
  pub status : StatusCode
  pub body : Body
  pub content_type : String

unfoldable pub text : StatusCode → String → Response
text status body = record {
  status = status;
  body = fixed body;
  content_type = "text/plain; charset=utf-8";
}

unfoldable pub metrics : AdminRoutes → Response
unfolding text
metrics routes = elim routes.registry [
  | none ↦ text internal_server_error "metrics encoding failed\n"
  | some body ↦ record {
    status = ok;
    body = encoded body;
    content_type = "text/plain; version=0.0.4; charset=utf-8";
  }
]

unfoldable pub handle : AdminRoutes → Request → Response
unfolding metrics is_draining text str_eq
handle routes request = elim request.method [
  | other ↦ text method_not_allowed "method not allowed\n"
  | get ↦
      if str_eq request.path metrics_path
      then metrics routes
      else if str_eq request.path routes.health_path
      then if is_draining routes.health
        then text service_unavailable "draining\n"
        else text ok "ok\n"
      else text not_found "not found\n"
]
