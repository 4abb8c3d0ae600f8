-- ===== src/Cache/Moves.antt =====
-- What a lookup and the end of a load make of the state, whatever the branch.
use sni_router.Common.{
  ℕ, ◌<◌, ◌≡◌, ◌⊎◌, refl, true, List, Option, none, some, ok, err, ltb, leb, arith, if_ind,
  if_cases, Option-cases, Bool-cases, inl, inr,
}
use sni_router.Lookup.Routes.{RouteCandidates, RouteHits}
use sni_router.Cache.Map.{find}
use sni_router.Cache.State.{CacheConfig, CacheState, LoadResult, candidates_eq}
use sni_router.Cache.Loads.{
  LoadGuard, started, begin_lookup, load_or_join, start_load, stale_of, finish, owns_slot,
  release_slot, drop_dead,
}
use sni_router.Cache.Runs.{guards_after}
use sni_router.Cache.Thinned.{IsThinned, IsThinned-refl, remove_entry-IsThinned}
use sni_router.Cache.Inserted.{IsInserted, insert-IsInserted}

-- A lookup leaves the state and the loads as they are, or it starts a load where none is in flight and
-- the limit has not been reached.
abbrev pub LookupMove : CacheConfig → ℕ → CacheState → RouteCandidates → Type 0
LookupMove config now s c =
    (((begin_lookup config now s c).0 ≡ s)
      × ((guards : List LoadGuard) → guards_after (begin_lookup config now s c).1 guards ≡ guards))
    ⊎ ((find candidates_eq s.inflight c ≡ none)
        × (s.running_loads < config.max_inflight_loads)
        × (stale : Option RouteHits) × (begin_lookup config now s c
            ≡ ((start_load s c).0, started (start_load s c).1 stale)))

load_or_join-move :
    (config : CacheConfig) (s : CacheState) (c : RouteCandidates) (stale : Option RouteHits)
    → (((load_or_join config s c stale).0 ≡ s)
        × ((guards : List LoadGuard)
            → guards_after (load_or_join config s c stale).1 guards ≡ guards))
      ⊎ ((find candidates_eq s.inflight c ≡ none)
          × (s.running_loads < config.max_inflight_loads)
          × (load_or_join config s c stale
              ≡ ((start_load s c).0, started (start_load s c).1 stale)))
unfolding load_or_join
load_or_join-move config s c stale = elim (Option-cases (find candidates_eq s.inflight c)) [
  | inr (id, there) ↦ inl (rw (load_or_join, there) (refl, λ guards. refl))
  | inl missing ↦ elim (Bool-cases (leb config.max_inflight_loads s.running_loads)) [
    | inl full ↦ inl (rw (load_or_join, missing, full) (refl, λ guards. refl))
    | inr room ↦ inr (missing, ground arith, rw (load_or_join, missing, room) refl)
  ]
]

pub begin_lookup-move :
    (config : CacheConfig) (now : ℕ) (s : CacheState) (c : RouteCandidates)
    → LookupMove config now s c
unfolding begin_lookup
begin_lookup-move config now s c = elim (Option-cases (find candidates_eq s.entries c)) [
  | inl missing ↦
      rw (begin_lookup, missing)
        (elim (load_or_join-move config s c none) [
          | inl same ↦ inl same
          | inr (free, room, e) ↦ inr (free, room, none, e)
        ])
  | inr (entry, there) ↦ elim (Bool-cases (ltb now entry.expires)) [
    | inl fresh ↦ inl (rw (begin_lookup, there, fresh) (refl, λ guards. refl))
    | inr expired ↦
        rw (begin_lookup, there, expired)
          (elim (load_or_join-move config s c (stale_of now (some entry))) [
            | inl same ↦ inl same
            | inr (free, room, e) ↦ inr (free, room, stale_of now (some entry), e)
          ])
  ]
]

-- The end of a load gives its slot back, if it still has it, and then takes entries away, or puts in the
-- hits of a load that still had its slot.
abbrev pub LoadMove : CacheState → CacheState → LoadGuard → LoadResult → Type 0
LoadMove s t guard result =
    IsThinned (release_slot s guard) t
    ⊎ ((hits : RouteHits) × (result ≡ ok hits)
        × (owns_slot s guard ≡ true)
        × IsInserted (release_slot s guard) t guard.candidates hits)

drop_dead-IsThinned :
    (now : ℕ) (s : CacheState) (c : RouteCandidates) → IsThinned s (drop_dead now s c)
unfolding drop_dead
drop_dead-IsThinned now s c = elim (Option-cases (find candidates_eq s.entries c)) [
  | inl missing ↦ rw (drop_dead, missing) (IsThinned-refl s)
  | inr (entry, there) ↦
      rw (drop_dead, there)
        (if_ind (IsThinned s) (leb entry.stale_until now) (remove_entry-IsThinned s c)
          (IsThinned-refl s))
]

pub finish-move :
    (jittered : ℕ → ℕ → ℕ) (now : ℕ) (config : CacheConfig) (s : CacheState) (guard : LoadGuard)
    (result : LoadResult)
    → LoadMove s (finish jittered now config s guard result) guard result
unfolding finish
finish-move jittered now config s guard (ok hits) =
    let released = release_slot s guard in
    if_cases (λ t. LoadMove s t guard (ok hits)) (owns_slot s guard)
      (λ mine.
        inr
          (hits, refl, mine, insert-IsInserted jittered now config released guard.candidates hits))
      (λ lost. inl (IsThinned-refl released))
finish-move jittered now config s guard (err e) =
    inl (drop_dead-IsThinned now (release_slot s guard) guard.candidates)
