-- ===== src/Config/Table.antt =====
-- What the table of the routes in the file answers.
use sni_router.Common.{
  ℕ, suc, ◌≡◌, List, [], ◌∷◌, Option, none, some, Result, ok, err, map_err, reject_if,
  if◌then◌else◌, >>=-eq-ok, Option-cases, Bool-cases, inl, inr, arith,
}
use sni_router.Lookup.Hostname.{is_some}
use sni_router.Lookup.RouteKey
use sni_router.Lookup.RouteKey.{RouteKey, key_eq, key_eq_iff}
use sni_router.Lookup.Backend
use sni_router.Lookup.Backend.{Backend}
use sni_router.Lookup.Memory
use sni_router.Lookup.Memory.{InMemoryLookup}
use sni_router.Lookup.Memory.Laws.{get-insert}
use sni_router.Config.{ConfigError, duplicate_route}
use sni_router.Config.Routes.{RawRoute, add_routes, build_route_table}

-- The parsed entries stand for the routes, one for one.
abbrev pub AreParsed : List RawRoute → List (RouteKey × Backend) → Type 0
AreParsed [] [] = Unit
AreParsed [] (_ ∷ _) = ⊥
AreParsed (_ ∷ _) [] = ⊥
AreParsed (route ∷ routes) ((key, backend) ∷ entries) =
    (RouteKey.parse route.hostname ≡ ok key)
    × (Backend.from_str route.backend ≡ ok backend)
    × AreParsed routes entries

-- The first entry under the key.
unfoldable pub entry_of : List (RouteKey × Backend) → RouteKey → Option Backend
entry_of [] key = none
entry_of ((k, b) ∷ entries) key = if key_eq k key then some b else entry_of entries key

abbrev first_of : Option Backend → Option Backend → Option Backend
first_of (some b) other = some b
first_of none other = other

map_err-eq-ok :
    {E F : Type 0} {A : Type 0} (r : Result E A) (f : E → F) (a : A) → map_err r f ≡ ok a → r ≡ ok a
map_err-eq-ok (ok b) f a h = cc
map_err-eq-ok (err e) f a h = cc

add_routes_lem :
    (index : ℕ) (routes : List RawRoute) (table result : InMemoryLookup)
    → add_routes index routes table ≡ ok result
    → (entries : List (RouteKey × Backend)) × AreParsed routes entries
      × ((key : RouteKey)
          → Memory.get result key ≡ first_of (Memory.get table key) (entry_of entries key))
unfolding add_routes entry_of
add_routes_lem index [] table result h =
    ([], tt, λ key. ground (arith, Option-cases (Memory.get table key)))
add_routes_lem index (route ∷ routes) table result h =
    let (key, parsed, h1) = >>=-eq-ok (map_err (RouteKey.parse route.hostname) _) _ h in
    let (backend, parsed', h2) = >>=-eq-ok (map_err (Backend.from_str route.backend) _) _ h1 in
    let (u, fresh, h3) =
      >>=-eq-ok (reject_if (is_some (Memory.insert table key backend).1) _) _ h2 in
    let (entries, all_parsed, answers) =
      add_routes_lem (suc index) routes (Memory.insert table key backend).0 result h3 in
    (
      (key, backend) ∷ entries,
      (map_err-eq-ok _ _ key parsed, map_err-eq-ok _ _ backend parsed', all_parsed),
      λ j. answer j key backend table result entries (duplicate_route key.text) u fresh (answers j),
    )
  where
    answer :
        (j key : RouteKey) (backend : Backend) (table result : InMemoryLookup)
        (entries : List (RouteKey × Backend)) (e : ConfigError) (u : Unit {0})
        → reject_if (is_some (Memory.insert table key backend).1) e ≡ ok u
        → Memory.get result j
          ≡ first_of (Memory.get (Memory.insert table key backend).0 j) (entry_of entries j)
        → Memory.get result j
          ≡ first_of
              (Memory.get table j)
              (if key_eq key j then some backend else entry_of entries j)
    answer j key backend table result entries e u fresh h =
        let laws = get-insert table key j backend in
        elim (Option-cases (Memory.get table key)) [
          | inl missing ↦ elim (Bool-cases (key_eq key j)) [
            | inl same ↦ ground (arith, laws.0, laws.1, (key_eq_iff key j).0)
            | inr other ↦ ground (arith, laws.0)
          ]
          | inr (b, there) ↦ ground (arith, laws.1)
        ]

-- When the routes of the file are accepted, every one of them parses, and the table answers each key with
-- the backend of the first route under that key, and no other key.
pub build_route_table_lem :
    (routes : List RawRoute) (table : InMemoryLookup)
    → build_route_table routes ≡ ok table
    → (entries : List (RouteKey × Backend)) × AreParsed routes entries
      × ((key : RouteKey) → Memory.get table key ≡ entry_of entries key)
unfolding build_route_table Memory.new Memory.get Memory.map_get
build_route_table_lem routes table h = add_routes_lem 0 routes Memory.new table h
