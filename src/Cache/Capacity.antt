-- ===== src/Cache/Capacity.antt =====
-- crates/sni_router/src/cache.rs: the number of entries.
use sni_router.Common.{
  ℕ, ◌*◌, ◌≤◌, ◌<◌, ◌≡◌, refl, true, [], ◌∷◌, ◌++◌, some, ok, err, length, ltb, leb, ◌==◌, ==_iff,
  arith, if_ind, if_cases, Option-cases, inl, inr,
}
use sni_router.Lookup.RouteKey.{RouteKey, key_eq}
use sni_router.Lookup.Routes.{RouteCandidates, RouteHits}
use sni_router.Cache.Map.{find, put, remove}
use sni_router.Cache.Map.Laws.{find-put, length-put_old, length-put_le}
use sni_router.Cache.State.{
  CacheConfig, CacheState, Entry, LoadResult, candidates_eq, candidates_eq_iff, empty,
}
use sni_router.Cache.Entries.{
  take_id, remove_entry, remove_entries, make_room, reserve, live_order, compact_order, entry_of,
  insert, or_default,
}
use sni_router.Cache.Loads.{
  LoadGuard, start_load, finish, invalidate, clear, owns_slot, release_slot, drop_dead,
}
use sni_router.Cache.Thinned.{remove_entry-IsThinned, remove_entries-IsThinned, IsThinned}
use sni_router.Cache.Order.{
  Order, in_order, in_order-append, remove_entry-order, remove_entries-order, is_live-held,
  make_room-HasRoom,
}
use sni_router.Cache.Runs.{
  World, start, Brings, Step, look, end_load, drop_key, drop_all, Run, halt, extend,
}
use sni_router.Cache.Moves.{begin_lookup-move}

-- The entries are within the limit, and each can be found for eviction: it has its record in the order.
pub record IsCapped (config : CacheConfig) (s : CacheState) : Type 0 where
  pub within : length s.entries ≤ config.max_entries
  pub evictable :
      (c : RouteCandidates) (e : Entry)
      → find candidates_eq s.entries c ≡ some e
      → in_order s.order c e.id ≡ true

kept :
    {config : CacheConfig} {s t : CacheState}
    → t.entries ≡ s.entries
    → t.order ≡ s.order
    → IsCapped config s
    → IsCapped config t
kept entries order i = record {
  within = rw entries i.within;
  evictable = λ c e h. rw order (i.evictable c e (rw entries at h));
}

thinned :
    {config : CacheConfig} (s t : CacheState)
    → IsThinned s t
    → t.order ≡ s.order
    → IsCapped config s
    → IsCapped config t
thinned s t thin order i = record {
  within = omega (arith, thin.fewer, i.within);
  evictable = λ c e h. rw order (i.evictable c e (thin.survivor c e h));
}

in_order-live_order :
    (s : CacheState) (order : Order) (c : RouteCandidates) (e : Entry)
    → find candidates_eq s.entries c ≡ some e
    → in_order order c e.id ≡ true
    → in_order (live_order s order) c e.id ≡ true
unfolding in_order live_order
in_order-live_order s [] c e held h = h
in_order-live_order s ((d, j) ∷ order) c e held h =
    ground
      (arith, in_order-live_order s order c e held, is_live-held s c e held, candidates_eq_iff d c)

compact_order-IsCapped :
    (s : CacheState) (config : CacheConfig)
    → IsCapped config s
    → IsCapped config (compact_order s config)
unfolding compact_order
compact_order-IsCapped s config i =
    if_ind (IsCapped config) (ltb (config.max_entries * 2) (length s.order))
      record {
        within = i.within;
        evictable = λ c e h. in_order-live_order s s.order c e h (i.evictable c e h);
      }
      i

-- A reserved place: the candidates have an entry already, or there is room for one more.
record IsFitted (config : CacheConfig) (c : RouteCandidates) (r : CacheState) : Type 0 where
  capped : IsCapped config r
  place : (v : Entry) → length (put candidates_eq r.entries c v) ≤ config.max_entries

reserve-IsFitted :
    (s : CacheState) (now : ℕ) (config : CacheConfig) (c : RouteCandidates)
    → 0 < config.max_entries
    → IsCapped config s
    → IsFitted config c (reserve s now config c)
unfolding reserve
reserve-IsFitted s now config c some_room i = elim (Option-cases (find candidates_eq s.entries c)) [
  | inr (old, there) ↦
      rw (reserve, there)
        record {
          capped = i;
          place = λ v.
              let size = length-put_old candidates_eq candidates_eq_iff s.entries c v old there in
              omega (arith, size, i.within);
        }
  | inl missing ↦
      let room = make_room-HasRoom s now config some_room record { has = i.evictable } in
      rw (reserve, missing)
        record {
          capped = record { within = omega (arith, room.room); evictable = room.covered.has };
          place = λ v.
              let size =
                length-put_le candidates_eq candidates_eq_iff (make_room s now config).entries c
                  v in
              omega (arith, size, room.room);
        }
]

put-IsCapped :
    (config : CacheConfig) (r : CacheState) (c : RouteCandidates) (v : Entry)
    → IsFitted config c r
    → IsCapped config
        (record r { entries = put candidates_eq r.entries c v; order = r.order ++ (c, v.id) ∷ [] })
unfolding in_order
put-IsCapped config r c v i = record {
  within = i.place v;
  evictable = λ d e h. ground (
    arith,
    find-put candidates_eq candidates_eq_iff r.entries c d v,
    in_order-append r.order ((c, v.id) ∷ []) d e.id,
    i.capped.evictable d e,
    ==_iff e.id e.id,
  );
}

insert-IsCapped :
    (jittered : ℕ → ℕ → ℕ) (now : ℕ) (config : CacheConfig) (s : CacheState) (c : RouteCandidates)
    (hits : RouteHits)
    → IsCapped config s
    → IsCapped config (insert jittered now config s c hits)
unfolding insert take_id entry_of
insert-IsCapped jittered now config s c hits i =
    let taken = (take_id s).1 in
    if_cases (IsCapped config) (config.max_entries == 0) (λ none_fits. i)
      (λ some_room. compact_order-IsCapped _ config (
        put-IsCapped config (reserve taken now config c) c
          (entry_of jittered now config hits s.next_id)
          (reserve-IsFitted taken now config c (ground arith) (kept refl refl i))))

drop_dead-IsCapped :
    (config : CacheConfig) (now : ℕ) (s : CacheState) (c : RouteCandidates)
    → IsCapped config s
    → IsCapped config (drop_dead now s c)
unfolding drop_dead
drop_dead-IsCapped config now s c i = elim (Option-cases (find candidates_eq s.entries c)) [
  | inl missing ↦ rw (drop_dead, missing) i
  | inr (entry, there) ↦
      rw (drop_dead, there)
        (if_ind (IsCapped config) (leb entry.stale_until now)
          (thinned s (remove_entry s c) (remove_entry-IsThinned s c) (remove_entry-order s c) i) i)
]

finish-IsCapped :
    (jittered : ℕ → ℕ → ℕ) (now : ℕ) (config : CacheConfig) (s : CacheState) (guard : LoadGuard)
    (result : LoadResult)
    → IsCapped config s
    → IsCapped config (finish jittered now config s guard result)
unfolding finish release_slot
finish-IsCapped jittered now config s guard (ok hits) i =
    if_ind (IsCapped config) (owns_slot s guard)
      (insert-IsCapped jittered now config (release_slot s guard) guard.candidates hits
        (kept refl refl i))
      (kept refl refl i)
finish-IsCapped jittered now config s guard (err e) i =
    drop_dead-IsCapped config now (release_slot s guard) guard.candidates (kept refl refl i)

invalidate-IsCapped :
    (config : CacheConfig) (s : CacheState) (key : RouteKey)
    → IsCapped config s
    → IsCapped config (invalidate s key)
unfolding invalidate
invalidate-IsCapped config s key i =
    let cut = record s { index = remove key_eq s.index key } in
    let named = or_default (find key_eq s.index key) in
    kept refl refl (
      thinned cut (remove_entries cut named) (remove_entries-IsThinned cut named)
        (remove_entries-order cut named) (kept refl refl i))

Step-IsCapped :
    {jittered : ℕ → ℕ → ℕ} {config : CacheConfig} {brings : Brings} {w v : World}
    → Step jittered config brings w v
    → IsCapped config w.state
    → IsCapped config v.state
unfolding clear find start_load take_id
Step-IsCapped {config} {w} (look now c) i = elim (begin_lookup-move config now w.state c) [
  | inl (same, none_added) ↦ rw same i
  | inr (free, room, stale, e) ↦ rw e (kept refl refl i)
]
Step-IsCapped {jittered} {config} {w} (end_load now before guard after result h brought) i =
    finish-IsCapped jittered now config w.state guard result i
Step-IsCapped {config} {w} (drop_key key) i = invalidate-IsCapped config w.state key i
Step-IsCapped drop_all i = record { within = omega arith; evictable = λ c e h. cc }

-- In every run of lookups, ends of loads, invalidations and clearings, in any order and with any results
-- of the store, the cache holds at most the configured number of entries, and each has its record in the
-- order that evictions follow.
pub Run-IsCapped :
    {jittered : ℕ → ℕ → ℕ} {config : CacheConfig} {brings : Brings} {w : World}
    → Run jittered config brings start w
    → IsCapped config w.state
unfolding empty find
Run-IsCapped halt = record { within = omega arith; evictable = λ c e h. cc }
Run-IsCapped (extend r s) = Step-IsCapped s (Run-IsCapped r)
