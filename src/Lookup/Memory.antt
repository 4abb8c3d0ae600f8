-- ===== src/Lookup/Memory.antt =====
-- crates/sni_router/src/lookup/memory.rs: the route table in memory. Its hash map is an association
-- list that holds each key once.
pub mod Laws
use sni_router.Common.{
  ℕ, ◌≡◌, refl, Bool, true, false, List, [], ◌∷◌, Option, none, some, length, if◌then◌else◌,
}
use sni_router.Lookup.RouteKey.{RouteKey, key_eq}
use sni_router.Lookup.Backend.{Backend}
use sni_router.Lookup.Routes.{RouteCandidates, RouteHits, keys}

pub record InMemoryLookup : Type 0 where
  pub routes : List (RouteKey × Backend)

-- `HashMap::get`.
unfoldable pub map_get : List (RouteKey × Backend) → RouteKey → Option Backend
map_get [] key = none
map_get ((k, b) ∷ m) key = if key_eq k key then some b else map_get m key

-- `HashMap::insert`, without the value that it returns.
unfoldable pub map_insert :
    List (RouteKey × Backend) → RouteKey → Backend → List (RouteKey × Backend)
map_insert [] key backend = (key, backend) ∷ []
map_insert ((k, b) ∷ m) key backend =
    if key_eq k key then (k, backend) ∷ m else (k, b) ∷ map_insert m key backend

unfoldable pub new : InMemoryLookup
new = record { routes = [] }

unfoldable pub insert : InMemoryLookup → RouteKey → Backend → InMemoryLookup × Option Backend
unfolding map_get map_insert
insert t key backend = (record { routes = map_insert t.routes key backend }, map_get t.routes key)

unfoldable pub get : InMemoryLookup → RouteKey → Option Backend
unfolding map_get
get t key = map_get t.routes key

unfoldable pub len : InMemoryLookup → ℕ
len t = length t.routes

unfoldable pub from_entries : InMemoryLookup → List (RouteKey × Backend) → InMemoryLookup
unfolding insert
from_entries t [] = t
from_entries t ((key, backend) ∷ rest) = from_entries (insert t key backend).0 rest

-- `FromIterator::from_iter`.
unfoldable pub from_iter : List (RouteKey × Backend) → InMemoryLookup
unfolding from_entries new
from_iter entries = from_entries new entries

unfoldable pub hits_of : InMemoryLookup → List RouteKey → RouteHits
unfolding get
hits_of t [] = []
hits_of t (key ∷ rest) =
    let found = hits_of t rest in elim (get t key) [ none ↦ found | some b ↦ (key, b) ∷ found ]

unfoldable pub hits : InMemoryLookup → RouteCandidates → RouteHits
unfolding hits_of keys
hits t c = hits_of t (keys c)
