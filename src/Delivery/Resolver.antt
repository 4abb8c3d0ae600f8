-- ===== src/Delivery/Resolver.antt =====
-- crates/sni_router/src/delivery/resolver.rs: the cache of resolved addresses. Instants and durations are
-- nanoseconds; an instant is unbounded, so that `later` is the sum. What the system resolves is an input.
pub mod Answers
pub mod Flights
pub mod Lasting
pub mod Stale
use sni_router.Common.{
  ℕ, ◌+◌, ◌*◌, ◌%◌, ◌^◌, Bool, true, false, ◌&&◌, List, [], ◌∷◌, ◌++◌, Option, none, some, Result,
  ok, err, ok_or, length, take, drop, max, ltb, leb, ◌==◌, not, if◌then◌else◌,
}
use sni_router.Lookup.Text.{Str, str_eq}
use sni_router.Lookup.Ip.{SocketAddr}
use sni_router.Cache.Map.{find, put}

abbrev pub second : ℕ
second = 1000000000

abbrev pub negative_ttl : ℕ
negative_ttl = second

abbrev pub stale_if_error : ℕ
stale_if_error = 60 * second

abbrev pub prune_threshold : ℕ
prune_threshold = 4096

-- A name and a port.
pub record Key : Type 0 where
  pub name : Str
  pub port : ℕ

unfoldable pub key_eq : Key → Key → Bool
key_eq a b = str_eq a.name b.name && a.port == b.port

-- `io::Error` by its kind, without the message: nothing found, or another kind.
pub data Failure : Type 0 where
  not_found : Failure
  failed : ℕ → Failure

abbrev pub Outcome : Type 0
Outcome = Result Failure (List SocketAddr)

pub record Entry : Type 0 where
  pub addrs : Option (List SocketAddr)
  pub fresh_until : ℕ
  pub stale_until : ℕ

abbrev pub Cache : Type 0
Cache = List (Key × Entry)

-- The names in flight stand for the channels that their waiters hold.
pub record State : Type 0 where
  pub cache : Cache
  pub inflight : List Key

unfoldable pub later : ℕ → ℕ → ℕ
later instant duration = instant + duration

-- The cached outcome while it is fresh.
unfoldable pub fresh : ℕ → Cache → Key → Option Outcome
fresh now cache key = elim (find key_eq cache key) [
  | none ↦ none
  | some entry ↦ if ltb now entry.fresh_until then some (ok_or entry.addrs not_found) else none
]

unfoldable pub retain_usable : ℕ → Cache → Cache
retain_usable now [] = []
retain_usable now ((key, entry) ∷ cache) =
    let rest = retain_usable now cache in
    if ltb now (max entry.stale_until entry.fresh_until) then (key, entry) ∷ rest else rest

unfoldable pub prune : ℕ → Cache → Cache
unfolding retain_usable
prune now cache = if leb prune_threshold (length cache) then retain_usable now cache else cache

unfoldable pub good_entry : ℕ → ℕ → List SocketAddr → Entry
unfolding later
good_entry now ttl addrs =
    let fresh_until = later now ttl in
    record {
      addrs = some addrs;
      fresh_until = fresh_until;
      stale_until = later fresh_until stale_if_error;
    }

-- `cache.entry(key).or_insert(..)` on a failure.
unfoldable pub entry_or_empty : ℕ → Option Entry → Entry
entry_or_empty now (some entry) = entry
entry_or_empty now none = record { addrs = none; fresh_until = now; stale_until = now }

-- The addresses that a failure leaves in use.
unfoldable pub stale_addrs : ℕ → Entry → Option (List SocketAddr)
stale_addrs now entry = if ltb now entry.stale_until then entry.addrs else none

unfoldable pub store_failed : ℕ → Cache → Key → Failure → Cache × Outcome
unfolding entry_or_empty stale_addrs later
store_failed now cache key error =
    let entry = entry_or_empty now (find key_eq cache key) in
    let addrs = stale_addrs now entry in
    (
      put key_eq cache key (record {
        addrs = addrs;
        fresh_until = later now negative_ttl;
        stale_until = entry.stale_until;
      }),
      ok_or addrs error,
    )

-- An answer without addresses is a failure.
unfoldable pub store : ℕ → ℕ → Cache → Key → Outcome → Cache × Outcome
unfolding prune good_entry store_failed
store now ttl cache key (ok []) = store_failed now (prune now cache) key not_found
store now ttl cache key (ok (a ∷ others)) =
    (put key_eq (prune now cache) key (good_entry now ttl (a ∷ others)), ok (a ∷ others))
store now ttl cache key (err error) = store_failed now (prune now cache) key error

-- The counter wraps at the width of a machine word.
unfoldable pub rotated : ℕ → List SocketAddr → List SocketAddr × ℕ
rotated rotation addrs =
    let start = rotation % max (length addrs) 1 in
    (drop start addrs ++ take start addrs, (rotation + 1) % 2 ^ 64)

unfoldable pub is_inflight : List Key → Key → Bool
is_inflight [] key = false
is_inflight (k ∷ ks) key = if key_eq k key then true else is_inflight ks key

unfoldable pub remove_inflight : List Key → Key → List Key
remove_inflight [] key = []
remove_inflight (k ∷ ks) key =
    let rest = remove_inflight ks key in if key_eq k key then rest else k ∷ rest

-- How the part of `resolve` under the lock ends.
pub data Begun : Type 0 where
  cached : Outcome → Begun
  joined started : Begun

unfoldable pub join_or_start : State → Key → State × Begun
unfolding is_inflight
join_or_start s key =
    if is_inflight s.inflight key
    then (s, joined)
    else (record { cache = s.cache; inflight = key ∷ s.inflight }, started)

unfoldable pub begin_resolve : ℕ → State → Key → State × Begun
unfolding fresh join_or_start
begin_resolve now s key = elim (fresh now s.cache key) [
  | some outcome ↦ (s, cached outcome)
  | none ↦ join_or_start s key
]

-- The end of the task of `spawn_lookup`; the outcome is what its waiters get.
unfoldable pub end_lookup : ℕ → ℕ → State → Key → Outcome → State × Outcome
unfolding store remove_inflight
end_lookup now ttl s key result =
    let (cache, outcome) = store now ttl s.cache key result in
    (record { cache = cache; inflight = remove_inflight s.inflight key }, outcome)
