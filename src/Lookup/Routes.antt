-- ===== src/Lookup/Routes.antt =====
-- crates/sni_router/src/lookup/mod.rs: the candidates of a hostname, and the hits of a lookup.
use sni_router.Common.{
  Bool, false, ◌||◌, List, [], ◌∷◌, ◌++◌, Option, none, some, length, ◌==◌, if◌then◌else◌,
}
use sni_router.Lookup.Hostname.{Hostname}
use sni_router.Lookup.RouteKey
use sni_router.Lookup.RouteKey.{RouteKey, key_eq}
use sni_router.Lookup.Backend.{Backend}

pub record RouteCandidates : Type 0 where
  pub exact : RouteKey
  pub wildcard : Option RouteKey

unfoldable pub for_hostname : Hostname → RouteCandidates
for_hostname host = record { exact = RouteKey.exact host; wildcard = RouteKey.wildcard_for host }

abbrev once {ℓ} : {A : Type ℓ} → Option A → List A
once none = []
once (some a) = a ∷ []

-- In precedence order.
unfoldable pub keys : RouteCandidates → List RouteKey
keys c = c.exact ∷ once c.wildcard

unfoldable pub any_key : RouteKey → List RouteKey → Bool
any_key key [] = false
any_key key (k ∷ ks) = key_eq k key || any_key key ks

unfoldable pub contains : RouteCandidates → RouteKey → Bool
unfolding keys any_key
contains c key = any_key key (keys c)

-- A `RouteHits` is the vector of its entries.
abbrev pub RouteHits : Type 0
RouteHits = List (RouteKey × Backend)

unfoldable pub push : RouteHits → RouteKey → Backend → RouteHits
push hits key backend = hits ++ (key, backend) ∷ []

unfoldable pub is_empty : RouteHits → Bool
is_empty hits = length hits == 0

-- The backend of the first hit under the key.
unfoldable pub get : RouteHits → RouteKey → Option Backend
get [] key = none
get ((k, backend) ∷ hits) key = if key_eq k key then some backend else get hits key
