-- ===== src/Routing.antt =====
-- crates/sni_router/src/routing/mod.rs: which keys a hostname may match, and which hit wins.
pub mod Precedence
pub mod Untrusted
use sni_router.Common.{
  ℕ, ◌+◌, ◌<◌, ◌≡◌, Bool, true, false, List, [], ◌∷◌, Option, none, some, Result, ok, err, ◌>>=◌,
  ok_or, if◌then◌else◌, not,
}
use sni_router.Lookup.Hostname.{Hostname}
use sni_router.Lookup.RouteKey.{RouteKey}
use sni_router.Lookup.Backend.{Backend}
use sni_router.Lookup.Routes
use sni_router.Lookup.Routes.{RouteCandidates, RouteHits}

pub record RouteMatch : Type 0 where
  pub key : RouteKey
  pub backend : Backend

-- `Lookup` carries the error of the store, of which the router reads nothing.
pub data RouteError : Type 0 where
  not_found lookup timeout : RouteError

unfoldable pub candidate_keys : Hostname → RouteCandidates
candidate_keys host = Routes.for_hostname host

unfoldable pub count_ignored : RouteCandidates → RouteHits → ℕ
count_ignored c [] = 0
count_ignored c ((key, backend) ∷ hits) =
    let rest = count_ignored c hits in if not (Routes.contains c key) then rest + 1 else rest

unfoldable pub find_match : RouteHits → List RouteKey → Option RouteMatch
find_match hits [] = none
find_match hits (key ∷ rest) = elim (Routes.get hits key) [
  | some backend ↦ some (record { key = key; backend = backend })
  | none ↦ find_match hits rest
]

pub record Selection : Type 0 where
  pub matched : Option RouteMatch
  pub ignored_hits : ℕ

unfoldable pub select_route : RouteCandidates → RouteHits → Selection
unfolding count_ignored find_match
select_route candidates hits = record {
  matched = find_match hits (Routes.keys candidates);
  ignored_hits = count_ignored candidates hits;
}

-- How the one lookup call ends: with hits, with the error of the store, or by the timeout.
pub data LookupEnd : Type 0 where
  answered : RouteHits → LookupEnd
  failed elapsed : LookupEnd

unfoldable pub resolve_end : RouteCandidates → LookupEnd → Result RouteError RouteMatch
resolve_end candidates (answered hits) = ok_or (select_route candidates hits).matched not_found
resolve_end candidates failed = err lookup
resolve_end candidates elapsed = err timeout

-- The store is a function from the candidates to how its call ends.
unfoldable pub resolve_route :
    (RouteCandidates → LookupEnd) → Hostname → Result RouteError RouteMatch
unfolding resolve_end candidate_keys
resolve_route store host =
    let candidates = candidate_keys host in resolve_end candidates (store candidates)
