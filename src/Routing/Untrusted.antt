-- ===== src/Routing/Untrusted.antt =====
-- crates/sni_router/src/routing/mod.rs, over a store that keeps no contract.
use sni_router.Common.{
  ◌≡◌, ◌⊎◌, ◌↔◌, refl, sym, ap, ◌∙◌, true, List, [], ◌∷◌, some, ok, err, arith, Option-cases,
  Bool-cases, inl, inr,
}
use sni_router.Lookup.Hostname.{Hostname}
use sni_router.Lookup.RouteKey
use sni_router.Lookup.RouteKey.{RouteKey, key_eq, key_eq_iff, wildcard_for}
use sni_router.Lookup.RouteKey.Wildcard.{Covers, wildcard_for-Covers}
use sni_router.Lookup.Routes
use sni_router.Lookup.Routes.{RouteCandidates, RouteHits, any_key, keys}
use sni_router.Lookup.Memory
use sni_router.Lookup.Memory.{InMemoryLookup, hits_of, hits}
use sni_router.Routing.{
  RouteMatch, lookup, timeout, LookupEnd, answered, failed, elapsed, resolve_route, resolve_end,
  find_match, select_route, candidate_keys, count_ignored,
}

find_match-some :
    (found : RouteHits) (ks : List RouteKey) (m : RouteMatch)
    → find_match found ks ≡ some m
    → (any_key m.key ks ≡ true) × (Routes.get found m.key ≡ some m.backend)
unfolding find_match any_key
find_match-some found [] m h = cc
find_match-some found (k ∷ ks) m h = elim (Option-cases (Routes.get found k)) [
  | inl missing ↦ ground (arith, find_match-some found ks m)
  | inr (b, there) ↦ ground (arith, (key_eq_iff k k).1)
]

any_key-candidates :
    (host : Hostname) (key : RouteKey)
    → any_key key (keys (Routes.for_hostname host)) ≡ true
    → (key ≡ RouteKey.exact host) ⊎ Covers key host
unfolding any_key keys Routes.for_hostname
any_key-candidates host key h = elim (Bool-cases (key_eq (RouteKey.exact host) key)) [
  | inl same ↦ inl (sym ((key_eq_iff (RouteKey.exact host) key).0 same))
  | inr other ↦ elim (Option-cases (wildcard_for host)) [
    | inl no_wildcard ↦ ground arith
    | inr (k, there) ↦ inr (wildcard_for-Covers key host (ground (arith, (key_eq_iff k key).0)))
  ]
]

-- Whatever hits a store answers, those under foreign keys included, a route that is picked is one of
-- its hits, and its key is the hostname's own or a wildcard key that covers the hostname.
pub resolve_route-candidate :
    (store : RouteCandidates → LookupEnd) (found : RouteHits) (host : Hostname) (m : RouteMatch)
    → store (Routes.for_hostname host) ≡ answered found
    → resolve_route store host ≡ ok m
    → ((m.key ≡ RouteKey.exact host) ⊎ Covers m.key host)
      × (Routes.get found m.key ≡ some m.backend)
unfolding resolve_route resolve_end candidate_keys select_route
resolve_route-candidate store found host m ends h =
    elim (Option-cases (find_match found (keys (Routes.for_hostname host)))) [
      | inl missing ↦ ground arith
      | inr (m', there) ↦
          let same : m' ≡ m = ground arith in
          let (candidate, hit) =
            find_match-some found (keys (Routes.for_hostname host)) m (there ∙ ap some same) in
          (any_key-candidates host m.key candidate, hit)
    ]

resolve_end-error :
    (c : RouteCandidates) (end : LookupEnd)
    → ((resolve_end c end ≡ err timeout) ↔ (end ≡ elapsed))
      × ((resolve_end c end ≡ err lookup) ↔ (end ≡ failed))
unfolding resolve_end select_route
resolve_end-error c (answered found) = elim (Option-cases (find_match found (keys c))) [
  | inl missing ↦ ground arith
  | inr (m, there) ↦ ground arith
]
resolve_end-error c failed = ((λ h. cc, λ h. cc), (λ _. refl, λ _. refl))
resolve_end-error c elapsed = ((λ _. refl, λ _. refl), (λ h. cc, λ h. cc))

-- The error tells how the call ended: a timeout and a failure of the store are reported as such, and
-- an answer is never turned into either.
pub resolve_route-error :
    (store : RouteCandidates → LookupEnd) (host : Hostname)
    → ((resolve_route store host ≡ err timeout) ↔ (store (Routes.for_hostname host) ≡ elapsed))
      × ((resolve_route store host ≡ err lookup) ↔ (store (Routes.for_hostname host) ≡ failed))
unfolding resolve_route candidate_keys
resolve_route-error store host =
    resolve_end-error (Routes.for_hostname host) (store (Routes.for_hostname host))

key_eq_refl : (k : RouteKey) → key_eq k k ≡ true
key_eq_refl k = (key_eq_iff k k).1 refl

count_ignored-hits_of :
    (t : InMemoryLookup) (c : RouteCandidates) (ks : List RouteKey)
    → ((key : RouteKey) → any_key key ks ≡ true → Routes.contains c key ≡ true)
    → count_ignored c (hits_of t ks) ≡ 0
unfolding count_ignored hits_of any_key
count_ignored-hits_of t c [] sub = refl
count_ignored-hits_of t c (k ∷ ks) sub = elim (Option-cases (Memory.get t k)) [
  | inl missing ↦ ground (arith, count_ignored-hits_of t c ks (λ key h. sub key (ground arith)))
  | inr (b, there) ↦
      let mine : Routes.contains c k ≡ true = sub k (rw (key_eq_refl k) refl) in
      ground (arith, count_ignored-hits_of t c ks (λ key h. sub key (ground arith)))
]

-- Of what the table in memory answers, nothing is ignored.
pub count_ignored-hits :
    (t : InMemoryLookup) (c : RouteCandidates) → (select_route c (hits t c)).ignored_hits ≡ 0
unfolding select_route hits Routes.contains
count_ignored-hits t c = count_ignored-hits_of t c (keys c) (λ key h. h)
