-- ===== src/Cache/Loads.antt =====
-- crates/sni_router/src/cache.rs: `CachedLookup` and `LoadGuard`.
use sni_router.Common.{
  ℕ, ◌+◌, ◌-◌, Bool, false, List, [], ◌∷◌, Option, none, some, ok, err, ltb, leb, ◌==◌, not, length,
  if◌then◌else◌,
}
use sni_router.Lookup.RouteKey.{RouteKey, key_eq}
use sni_router.Lookup.Routes
use sni_router.Lookup.Routes.{RouteCandidates, RouteHits}
use sni_router.Cache.Map.{find, put, remove, retain}
use sni_router.Metrics.{
  CacheEvent, hit, negative_hit, miss, coalesced, stale_served, shed, load_error,
}
use sni_router.Cache.State.{
  CacheConfig, CacheState, Entry, LoadResult, aborted, timed_out, too_many, candidates_eq,
}
use sni_router.Cache.Entries.{take_id, insert, remove_entry, remove_entries, or_default}

unfoldable pub invalidate : CacheState → RouteKey → CacheState
invalidate s key =
    let unindexed = record s { index = remove key_eq s.index key } in
    let removed = remove_entries unindexed (or_default (find key_eq s.index key)) in
    record removed { inflight = retain (λ c. not (Routes.contains c key)) removed.inflight }

unfoldable pub is_empty : CacheState → Bool
is_empty s = length s.entries == 0

unfoldable pub clear : CacheState → CacheState
clear s = record s { entries = []; index = []; order = []; inflight = [] }

unfoldable pub len : CacheState → ℕ
len s = length s.entries

pub record LoadGuard : Type 0 where
  pub candidates : RouteCandidates
  pub id : ℕ

unfoldable pub start_load : CacheState → RouteCandidates → CacheState × LoadGuard
unfolding take_id
start_load s c =
    let (id, taken) = take_id s in
    (
      record taken {
        running_loads = taken.running_loads + 1;
        inflight = put candidates_eq taken.inflight c id;
      },
      record { candidates = c; id = id },
    )

-- How the part of `cached_lookup` under the lock ends: with a cached answer, with a load to wait for, one
-- that was running or a new one, or without either.
pub data Begun : Type 0 where
  answered : RouteHits → CacheEvent → Begun
  joined : ℕ → Option RouteHits → Begun
  started : LoadGuard → Option RouteHits → Begun
  refused : Option RouteHits → Begun

-- The entry that may be served when the load fails.
unfoldable pub stale_of : ℕ → Option Entry → Option RouteHits
stale_of now none = none
stale_of now (some entry) = if ltb now entry.stale_until then some entry.hits else none

unfoldable pub load_or_join :
    CacheConfig → CacheState → RouteCandidates → Option RouteHits → CacheState × Begun
unfolding start_load
load_or_join config s c stale = elim (find candidates_eq s.inflight c) [
  | some id ↦ (s, joined id stale)
  | none ↦
      if leb config.max_inflight_loads s.running_loads
      then (s, refused stale)
      else (let (s', guard) = start_load s c in (s', started guard stale))
]

unfoldable pub begin_lookup : CacheConfig → ℕ → CacheState → RouteCandidates → CacheState × Begun
unfolding load_or_join stale_of
begin_lookup config now s c = elim (find candidates_eq s.entries c) [
  | none ↦ load_or_join config s c none
  | some entry ↦
      if ltb now entry.expires
      then (s, answered entry.hits (if Routes.is_empty entry.hits then negative_hit else hit))
      else load_or_join config s c (stale_of now (some entry))
]

-- The event that the part under the lock reports.
unfoldable pub begin_event : Begun → CacheEvent
begin_event (answered hits event) = event
begin_event (joined id stale) = coalesced
begin_event (started guard stale) = miss
begin_event (refused stale) = shed

-- What a load ends with: the answer of the store, unless the timeout comes first.
unfoldable pub timed_load : Option LoadResult → LoadResult
timed_load none = err timed_out
timed_load (some result) = result

-- What a caller that waits for a load reads from its channel: the result, or nothing when the load's task
-- was dropped.
unfoldable pub awaited : Option LoadResult → LoadResult
awaited none = err aborted
awaited (some result) = result

-- What the caller of a load gets once the load has ended, and the events that this reports.
unfoldable pub end_lookup : LoadResult → Option RouteHits → LoadResult × List CacheEvent
end_lookup (ok hits) stale = (ok hits, [])
end_lookup (err e) (some stale) = (ok stale, stale_served ∷ [])
end_lookup (err e) none = (err e, [])

-- What a caller gets when too many loads are running, and the events behind `shed`.
unfoldable pub shed_lookup : Option RouteHits → LoadResult × List CacheEvent
shed_lookup (some stale) = (ok stale, stale_served ∷ [])
shed_lookup none = (err too_many, [])

-- Whether the in-flight slot is still that of the load.
unfoldable pub owns_slot : CacheState → LoadGuard → Bool
owns_slot s guard = elim (find candidates_eq s.inflight guard.candidates) [
  | none ↦ false
  | some id ↦ id == guard.id
]

unfoldable pub release_slot : CacheState → LoadGuard → CacheState
unfolding owns_slot
release_slot s guard = record s {
  running_loads = s.running_loads - 1;
  inflight =
      if owns_slot s guard then remove candidates_eq s.inflight guard.candidates else s.inflight;
}

-- A dead entry goes when its reload fails.
unfoldable pub drop_dead : ℕ → CacheState → RouteCandidates → CacheState
drop_dead now s c = elim (find candidates_eq s.entries c) [
  | none ↦ s
  | some entry ↦ if leb entry.stale_until now then remove_entry s c else s
]

-- `finish`, which a guard does once: when its load completes, or when the guard is dropped.
unfoldable pub finish :
    (ℕ → ℕ → ℕ) → ℕ → CacheConfig → CacheState → LoadGuard → LoadResult → CacheState
unfolding release_slot drop_dead
finish jittered now config s guard (ok hits) =
    if owns_slot s guard
    then insert jittered now config (release_slot s guard) guard.candidates hits
    else release_slot s guard
finish jittered now config s guard (err e) = drop_dead now (release_slot s guard) guard.candidates

unfoldable pub finish_events : LoadResult → List CacheEvent
finish_events (ok hits) = []
finish_events (err e) = load_error ∷ []

-- The whole of `cached_lookup`, its part under the lock done: what it returns and the events that it
-- reports, given what the load that it may wait for sends.
unfoldable pub end_cached_lookup : Begun → Option LoadResult → LoadResult × List CacheEvent
unfolding end_lookup shed_lookup awaited begin_event
end_cached_lookup (answered hits event) sent = (ok hits, event ∷ [])
end_cached_lookup (refused stale) sent =
    let (result, events) = shed_lookup stale in (result, begin_event (refused stale) ∷ events)
end_cached_lookup (joined id stale) sent =
    let (result, events) = end_lookup (awaited sent) stale in
    (result, begin_event (joined id stale) ∷ events)
end_cached_lookup (started guard stale) sent =
    let (result, events) = end_lookup (awaited sent) stale in
    (result, begin_event (started guard stale) ∷ events)
