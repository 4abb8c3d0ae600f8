-- ===== src/Cache/Freshness.antt =====
-- crates/sni_router/src/cache.rs: what is served after an invalidation.
use sni_router.Common.{
  ℕ, ◌≤◌, ◌≡◌, sym, true, Option, none, some, ok, ltb, ◌==◌, ==_iff, arith, Option-cases,
  Bool-cases, inl, inr,
}
use sni_router.Lookup.RouteKey.{RouteKey}
use sni_router.Lookup.Routes
use sni_router.Lookup.Routes.{RouteCandidates, RouteHits}
use sni_router.Cache.Map.{find, put}
use sni_router.Cache.Map.Laws.{find-put, find-remove}
use sni_router.Cache.State.{CacheConfig, CacheState, Entry, candidates_eq, candidates_eq_iff}
use sni_router.Cache.Entries.{take_id}
use sni_router.Cache.Loads.{
  LoadGuard, Begun, answered, joined, started, refused, begin_lookup, load_or_join, stale_of,
  start_load, invalidate, clear, owns_slot, release_slot,
}
use sni_router.Cache.Thinned.{IsThinned}
use sni_router.Cache.Inserted.{IsIndexed, IsInserted}
use sni_router.Cache.Runs.{
  World, start, Brings, Step, look, end_load, drop_key, drop_all, Run, halt, extend,
}
use sni_router.Cache.Moves.{begin_lookup-move, finish-move}
use sni_router.Cache.Invalidation.{
  find-invalidate, inflight-invalidate, invalidate-survivor, invalidate-next_id,
}
use sni_router.Cache.Admission.{Run-IsAdmitted}

-- The hits that a lookup has from the cache itself: those of a live entry, or those of an expired one that
-- may be served if the load fails.
abbrev pub from_cache : Begun → Option RouteHits
from_cache (answered hits event) = some hits
from_cache (joined id stale) = stale
from_cache (started guard stale) = stale
from_cache (refused stale) = stale

module _ (key : RouteKey) (since : ℕ) (Good : RouteHits → Type 0) where
  -- A load with such an id, of candidates that the key could answer, brings only good hits.
  abbrev pub brings_good : Brings
  brings_good guard result =
      (hits : RouteHits)
      → result ≡ ok hits
      → Routes.contains guard.candidates key ≡ true
      → since ≤ guard.id
      → Good hits

  pub record IsFresh (s : CacheState) : Type 0 where
    later_ids : since ≤ s.next_id
    later_loads :
        (c : RouteCandidates) (id : ℕ)
        → find candidates_eq s.inflight c ≡ some id
        → Routes.contains c key ≡ true
        → since ≤ id
    good :
        (c : RouteCandidates) (e : Entry)
        → find candidates_eq s.entries c ≡ some e
        → Routes.contains c key ≡ true
        → Good e.hits

  started-IsFresh : (s : CacheState) (c : RouteCandidates) → IsFresh s → IsFresh (start_load s c).0
  unfolding start_load take_id
  started-IsFresh s c i = record {
    later_ids = omega (arith, i.later_ids);
    later_loads = λ d id h covered. ground (
      arith,
      find-put candidates_eq candidates_eq_iff s.inflight c d s.next_id,
      i.later_loads d id,
      i.later_ids,
    );
    good = i.good;
  }

  released-IsFresh :
      (s : CacheState) (guard : LoadGuard) → IsFresh s → IsFresh (release_slot s guard)
  unfolding release_slot
  released-IsFresh s guard i = record {
    later_ids = i.later_ids;
    later_loads = λ c id h covered. ground (
      arith,
      find-remove candidates_eq candidates_eq_iff s.inflight guard.candidates c,
      i.later_loads c id,
    );
    good = i.good;
  }

  thinned-IsFresh : (s t : CacheState) → IsThinned s t → IsFresh s → IsFresh t
  thinned-IsFresh s t thin i = record {
    later_ids = rw thin.next_id i.later_ids;
    later_loads = λ c id h covered. i.later_loads c id (rw thin.loads.inflight at h) covered;
    good = λ c e h covered. i.good c e (thin.survivor c e h) covered;
  }

  owned-id :
      (s : CacheState) (guard : LoadGuard)
      → IsFresh s
      → owns_slot s guard ≡ true
      → Routes.contains guard.candidates key ≡ true
      → since ≤ guard.id
  unfolding owns_slot
  owned-id s guard i mine covered =
      elim (Option-cases (find candidates_eq s.inflight guard.candidates)) [
        | inl missing ↦ absurd (cc (rw (owns_slot, missing) at mine))
        | inr (id, there) ↦
            let own : (id == guard.id) ≡ true = rw (owns_slot, there) at mine in
            rw (sym ((==_iff id guard.id).0 own)) (i.later_loads guard.candidates id there covered)
      ]

  inserted-IsFresh :
      (s t : CacheState) (c : RouteCandidates) (hits : RouteHits)
      → (Routes.contains c key ≡ true → Good hits)
      → IsInserted s t c hits
      → IsFresh s
      → IsFresh t
  inserted-IsFresh s t c hits new put i = record {
    later_ids = omega (arith, put.next_id, i.later_ids);
    later_loads = λ d id h covered. i.later_loads d id (rw put.loads.inflight at h) covered;
    good = λ d e h covered. elim (put.origin d e h) [
      | inl (same, brought) ↦ rw brought (new (rw (sym same) covered))
      | inr old ↦ i.good d e old covered
    ];
  }

  invalidated-IsFresh : (s : CacheState) (k : RouteKey) → IsFresh s → IsFresh (invalidate s k)
  invalidated-IsFresh s k i = record {
    later_ids = rw (invalidate-next_id s k) i.later_ids;
    later_loads = λ c id h covered. ground (arith, inflight-invalidate s k c, i.later_loads c id);
    good = λ c e h covered. i.good c e (invalidate-survivor s k c e h) covered;
  }

  Step-IsFresh :
      {jittered : ℕ → ℕ → ℕ} {config : CacheConfig} {w v : World}
      → Step jittered config brings_good w v
      → IsFresh w.state
      → IsFresh v.state
  unfolding clear find
  Step-IsFresh {jittered} {config} {w} (look now c) i =
      elim (begin_lookup-move config now w.state c) [
        | inl (same, none_added) ↦ rw same i
        | inr (free, room, stale, e) ↦ rw e (started-IsFresh w.state c i)
      ]
  Step-IsFresh {jittered} {config} {w} (end_load now before guard after result h brought) i =
      let r = released-IsFresh w.state guard i in
      elim (finish-move jittered now config w.state guard result) [
        | inl thin ↦ thinned-IsFresh _ _ thin r
        | inr (hits, is_ok, mine, put) ↦
            inserted-IsFresh _ _ guard.candidates hits
              (λ covered. brought hits is_ok covered (owned-id w.state guard i mine covered)) put r
      ]
  Step-IsFresh {jittered} {config} {w} (drop_key k) i = invalidated-IsFresh w.state k i
  Step-IsFresh drop_all i = record {
    later_ids = i.later_ids;
    later_loads = λ c id h covered. cc;
    good = λ c e h covered. cc;
  }

  Run-IsFresh :
      {jittered : ℕ → ℕ → ℕ} {config : CacheConfig} {w v : World}
      → IsFresh w.state
      → Run jittered config brings_good w v
      → IsFresh v.state
  Run-IsFresh i halt = i
  Run-IsFresh i (extend r s) = Step-IsFresh s (Run-IsFresh i r)

  load_or_join-origin :
      (config : CacheConfig) (s : CacheState) (c : RouteCandidates) (stale : Option RouteHits)
      → from_cache (load_or_join config s c stale).1 ≡ stale
  unfolding load_or_join
  load_or_join-origin config s c stale = ground arith

  begin_lookup-origin :
      (config : CacheConfig) (now : ℕ) (s : CacheState) (c : RouteCandidates) (hits : RouteHits)
      → from_cache (begin_lookup config now s c).1 ≡ some hits
      → (e : Entry) × (find candidates_eq s.entries c ≡ some e) × (e.hits ≡ hits)
  unfolding begin_lookup stale_of
  begin_lookup-origin config now s c hits h = elim (Option-cases (find candidates_eq s.entries c)) [
    | inl missing ↦
        absurd (cc (load_or_join-origin config s c none, rw (begin_lookup, missing) at h))
    | inr (e, there) ↦ (
      e,
      there,
      elim (Bool-cases (ltb now e.expires)) [
        | inl fresh ↦ cc (rw (begin_lookup, there, fresh) at h)
        | inr expired ↦
            let stale = load_or_join-origin config s c (stale_of now (some e)) in
            ground (arith, stale, rw (begin_lookup, there, expired) at h)
      ],
    )
  ]

  served-IsFresh :
      (config : CacheConfig) (now : ℕ) (s : CacheState) (c : RouteCandidates) (hits : RouteHits)
      → IsFresh s
      → Routes.contains c key ≡ true
      → from_cache (begin_lookup config now s c).1 ≡ some hits
      → Good hits
  served-IsFresh config now s c hits i covered h =
      let (e, there, same) = begin_lookup-origin config now s c hits h in
      rw (sym same) (i.good c e there covered)

-- An invalidation leaves nothing of its key: no entry, no slot.
invalidate-IsFresh :
    (key : RouteKey) (Good : RouteHits → Type 0) (s : CacheState)
    → IsIndexed s
    → IsFresh key s.next_id Good (invalidate s key)
invalidate-IsFresh key Good s i = record {
  later_ids = omega (arith, invalidate-next_id s key);
  later_loads = λ c id h covered. absurd (cc (rw covered at (inflight-invalidate s key c), h));
  good = λ c e h covered. absurd (cc (find-invalidate s key c i covered, h));
}

-- When a key was invalidated in a reachable state and every load that starts after that, of candidates
-- that the key could answer, brings good hits, then whatever lookups, ends of loads, invalidations and
-- clearings follow, the loads that were running at the time included, a lookup of such candidates has only
-- good hits from the cache, stale ones included.
pub from_cache-invalidate :
    {jittered : ℕ → ℕ → ℕ} {config : CacheConfig} {brings : Brings} (key : RouteKey)
    (Good : RouteHits → Type 0) {w v : World} (now : ℕ) (c : RouteCandidates) (hits : RouteHits)
    → Run jittered config brings start w
    → Run jittered config
        (brings_good key w.state.next_id Good)
        record { state = invalidate w.state key; guards = w.guards }
        v
    → Routes.contains c key ≡ true
    → from_cache (begin_lookup config now v.state c).1 ≡ some hits
    → Good hits
from_cache-invalidate {config} key Good {w} {v} now c hits before after covered h =
    let cut = invalidate-IsFresh key Good w.state (Run-IsAdmitted before).found in
    served-IsFresh key w.state.next_id Good config now v.state c hits
      (Run-IsFresh key w.state.next_id Good cut after) covered h
