-- ===== src/Cache/State.antt =====
-- crates/sni_router/src/cache.rs: the configuration, the state, and what a load ends with. Instants and
-- durations are numbers; an instant is unbounded, so that `later` is the sum.
use sni_router.Common.{
  ℕ, ◌+◌, ◌≡◌, ◌↔◌, refl, Bool, true, false, ◌&&◌, List, [], Option, none, some, Result, arith,
}
use sni_router.Lookup.RouteKey.{RouteKey, key_eq, key_eq_iff}
use sni_router.Lookup.Routes.{RouteCandidates, RouteHits}

-- The jitter is a fraction; what it makes of a duration is a parameter of `insert`.
pub record CacheConfig : Type 0 where
  pub ttl : ℕ
  pub negative_ttl : ℕ
  pub max_entries : ℕ
  pub stale_if_error : Option ℕ
  pub max_inflight_loads : ℕ

pub record Entry : Type 0 where
  pub hits : RouteHits
  pub expires : ℕ
  pub stale_until : ℕ
  pub id : ℕ

-- An in-flight load is known by its id.
pub record CacheState : Type 0 where
  pub entries : List (RouteCandidates × Entry)
  pub index : List (RouteKey × List RouteCandidates)
  pub order : List (RouteCandidates × ℕ)
  pub inflight : List (RouteCandidates × ℕ)
  pub next_id : ℕ
  pub running_loads : ℕ
  pub last_purge : Option ℕ

-- The errors that the cache tells apart by their text, and those of the store.
pub data LoadError : Type 0 where
  store aborted timed_out too_many : LoadError

abbrev pub LoadResult : Type 0
LoadResult = Result LoadError RouteHits

unfoldable pub empty : CacheState
empty = record {
  entries = [];
  index = [];
  order = [];
  inflight = [];
  next_id = 0;
  running_loads = 0;
  last_purge = none;
}

unfoldable pub later : ℕ → ℕ → ℕ
later instant duration = instant + duration

abbrev optional_key_eq : Option RouteKey → Option RouteKey → Bool
optional_key_eq none none = true
optional_key_eq none (some k) = false
optional_key_eq (some j) none = false
optional_key_eq (some j) (some k) = key_eq j k

-- `a == b` on candidates.
unfoldable pub candidates_eq : RouteCandidates → RouteCandidates → Bool
candidates_eq a b = key_eq a.exact b.exact && optional_key_eq a.wildcard b.wildcard

optional_key_eq_iff : (a b : Option RouteKey) → (optional_key_eq a b ≡ true) ↔ (a ≡ b)
optional_key_eq_iff none none = (λ _. refl, λ _. refl)
optional_key_eq_iff none (some k) = (λ h. cc, λ h. cc)
optional_key_eq_iff (some j) none = (λ h. cc, λ h. cc)
optional_key_eq_iff (some j) (some k) =
    (λ h. cc ((key_eq_iff j k).0 h), λ h. ground (arith, (key_eq_iff j k).1))

pub candidates_eq_iff : (a b : RouteCandidates) → (candidates_eq a b ≡ true) ↔ (a ≡ b)
unfolding candidates_eq
candidates_eq_iff a b = (
  λ h.
      ground (arith, (key_eq_iff a.exact b.exact).0, (optional_key_eq_iff a.wildcard b.wildcard).0),
  λ h.
      ground (arith, (key_eq_iff a.exact b.exact).1, (optional_key_eq_iff a.wildcard b.wildcard).1),
)
