-- ===== src/Lookup/Memory/Laws.antt =====
-- The route table as a map: what a lookup returns for each candidate.
use sni_router.Common.{
  ◌≡◌, refl, List, [], ◌∷◌, none, some, arith, if◌then◌else◌, Option-cases, inl, inr,
}
use sni_router.Lookup.RouteKey.{RouteKey, key_eq, key_eq_iff}
use sni_router.Lookup.Backend.{Backend}
use sni_router.Lookup.Routes
use sni_router.Lookup.Routes.{RouteCandidates, RouteHits, any_key, contains, keys}
use sni_router.Lookup.Memory.{InMemoryLookup, map_get, map_insert, insert, get, hits_of, hits}

map_get-insert :
    (k j : RouteKey) (b : Backend) (m : List (RouteKey × Backend))
    → map_get (map_insert m k b) j ≡ (if key_eq k j then some b else map_get m j)
unfolding map_get map_insert
map_get-insert k j b [] = refl
map_get-insert k j b ((i, x) ∷ m) =
    ground (arith, map_get-insert k j b m, key_eq_iff i k, key_eq_iff i j, key_eq_iff k j)

-- A route that was inserted is found under its key, every other key answers as before, and the
-- insertion returns what the key answered before.
pub get-insert :
    (t : InMemoryLookup) (k j : RouteKey) (b : Backend)
    → (get (insert t k b).0 j ≡ (if key_eq k j then some b else get t j))
      × ((insert t k b).1 ≡ get t k)
unfolding get insert
get-insert t k j b = (map_get-insert k j b t.routes, refl)

pub get-hits_of :
    (t : InMemoryLookup) (ks : List RouteKey) (key : RouteKey)
    → Routes.get (hits_of t ks) key ≡ (if any_key key ks then get t key else none)
unfolding hits_of any_key Routes.get
get-hits_of t [] key = refl
get-hits_of t (k ∷ ks) key = elim (Option-cases (get t k)) [
  | inl missing ↦ ground (arith, get-hits_of t ks key, key_eq_iff k key)
  | inr (b, found) ↦ ground (arith, get-hits_of t ks key, key_eq_iff k key)
]

-- The hits of a lookup hold, for each key that is a candidate, what the table has for it, and nothing
-- under any other key.
pub get-hits :
    (t : InMemoryLookup) (c : RouteCandidates) (key : RouteKey)
    → Routes.get (hits t c) key ≡ (if contains c key then get t key else none)
unfolding hits contains
get-hits t c key = get-hits_of t (keys c) key
