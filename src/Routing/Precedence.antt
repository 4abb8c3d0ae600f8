-- ===== src/Routing/Precedence.antt =====
-- crates/sni_router/src/routing/mod.rs, against the contract of the route table.
use sni_router.Common.{
  ◌≡◌, refl, ap, ◌∙◌, true, List, [], ◌∷◌, Option, none, some, Result, ok, err, ok_or, arith,
  Option-cases, inl, inr,
}
use sni_router.Lookup.Hostname.{Hostname}
use sni_router.Lookup.RouteKey
use sni_router.Lookup.RouteKey.{RouteKey, key_eq, key_eq_iff, wildcard_for}
use sni_router.Lookup.Backend.{Backend}
use sni_router.Lookup.Routes
use sni_router.Lookup.Routes.{RouteCandidates, RouteHits, any_key, keys}
use sni_router.Lookup.Memory
use sni_router.Lookup.Memory.{InMemoryLookup, hits_of, hits}
use sni_router.Lookup.Memory.Laws.{get-hits}
use sni_router.Routing.{
  RouteMatch, RouteError, not_found, LookupEnd, answered, resolve_route, resolve_end, find_match,
  select_route, candidate_keys,
}

-- The contract of `RouteLookup`: the call answers, and its hits hold for each candidate what the
-- table has for it.
pub record IsServing (store : RouteCandidates → LookupEnd) (table : RouteKey → Option Backend)
    : Type 0 where
  pub served : RouteCandidates → RouteHits
  pub answer : (c : RouteCandidates) → store c ≡ answered (served c)
  pub entry :
      (c : RouteCandidates) (key : RouteKey)
      → Routes.contains c key ≡ true
      → Routes.get (served c) key ≡ table key

abbrev at_key :
    (RouteKey → Option Backend)
    → RouteKey
    → Result RouteError RouteMatch
    → Result RouteError RouteMatch
at_key table key otherwise = elim (table key) [
  | some b ↦ ok (record { key = key; backend = b })
  | none ↦ otherwise
]

-- The route of a hostname: its exact entry, else the entry of its wildcard, else none.
unfoldable pub route_of : (RouteKey → Option Backend) → Hostname → Result RouteError RouteMatch
route_of table host = at_key table (RouteKey.exact host) (elim (wildcard_for host) [
  | some key ↦ at_key table key (err not_found)
  | none ↦ err not_found
])

find_match-agree :
    (found : RouteHits) (table : RouteKey → Option Backend) (key : RouteKey) (rest : List RouteKey)
    → Routes.get found key ≡ table key
    → ok_or (find_match found (key ∷ rest)) not_found
      ≡ at_key table key (ok_or (find_match found rest) not_found)
unfolding find_match
find_match-agree found table key rest h = elim (Option-cases (table key)) [
  | inl missing ↦ ground (arith, h)
  | inr (b, there) ↦ ground (arith, h)
]

key_eq_refl : (k : RouteKey) → key_eq k k ≡ true
key_eq_refl k = (key_eq_iff k k).1 refl

exact-contains : (c : RouteCandidates) → Routes.contains c c.exact ≡ true
unfolding Routes.contains any_key keys
exact-contains c = rw (key_eq_refl c.exact) refl

wildcard-contains :
    (c : RouteCandidates) (k : RouteKey) → c.wildcard ≡ some k → Routes.contains c k ≡ true
unfolding Routes.contains any_key keys
wildcard-contains c k h = ground (arith, key_eq_refl k, h)

select_route-served :
    (c : RouteCandidates) (found : RouteHits) (table : RouteKey → Option Backend)
    → ((key : RouteKey) → Routes.contains c key ≡ true → Routes.get found key ≡ table key)
    → ok_or (select_route c found).matched not_found
      ≡ at_key table c.exact
          (elim c.wildcard [ some key ↦ at_key table key (err not_found) | none ↦ err not_found ])
unfolding select_route keys find_match
select_route-served c found table entry = elim (Option-cases c.wildcard) [
  | inl no_wildcard ↦
      rw no_wildcard (find_match-agree found table c.exact [] (entry c.exact (exact-contains c)))
  | inr (k, there) ↦ rw there (
      find_match-agree found table c.exact (k ∷ []) (entry c.exact (exact-contains c))
      ∙ ap (at_key table c.exact)
          (find_match-agree found table k [] (entry k (wildcard-contains c k there))))
]

-- Over any store that serves a table, the router picks the exact route of the hostname, else the
-- route of its wildcard key, and else reports that there is none.
pub resolve_route-IsServing :
    (store : RouteCandidates → LookupEnd) (table : RouteKey → Option Backend) (host : Hostname)
    → IsServing store table
    → resolve_route store host ≡ route_of table host
unfolding resolve_route resolve_end candidate_keys Routes.for_hostname route_of
resolve_route-IsServing store table host s = rw (s.answer (candidate_keys host)) (
    select_route-served (candidate_keys host) (s.served (candidate_keys host)) table
      (s.entry (candidate_keys host)))

-- The table in memory serves what it stores.
pub memory-IsServing : (t : InMemoryLookup) → IsServing (λ c. answered (hits t c)) (Memory.get t)
memory-IsServing t = record {
  served = λ c. hits t c;
  answer = λ c. refl;
  entry = λ c key h. get-hits t c key ∙ rw h refl;
}

-- Over the table in memory the router picks the exact entry of the hostname, else the entry of its
-- wildcard key, and else reports that there is none.
pub resolve_route-memory :
    (t : InMemoryLookup) (host : Hostname)
    → resolve_route (λ c. answered (hits t c)) host ≡ route_of (Memory.get t) host
resolve_route-memory t host = resolve_route-IsServing _ (Memory.get t) host (memory-IsServing t)
