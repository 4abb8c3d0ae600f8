-- ===== src/Cache/Thinned.antt =====
-- States of the cache with fewer entries: what every way of taking entries away leaves alone.
use sni_router.Common.{
  ℕ, ◌≤◌, ◌≡◌, refl, ◌∙◌, false, List, [], ◌∷◌, Option, some, length, ltb, arith, if◌then◌else◌,
  if_ind, Option-cases, inl, inr,
}
use sni_router.Lookup.RouteKey.{RouteKey}
use sni_router.Lookup.Routes.{RouteCandidates, keys}
use sni_router.Cache.Map.{find, remove}
use sni_router.Cache.Map.Laws.{find-remove, length-remove_le}
use sni_router.Cache.State.{CacheConfig, CacheState, Entry, candidates_eq, candidates_eq_iff}
use sni_router.Cache.Entries.{
  remove_entry, remove_entries, evict, purge, purge_due, dead, make_room, is_live,
}
use sni_router.Cache.Index.{indexed, indexed-unindex}

pub record SameLoads (s t : CacheState) : Type 0 where
  pub inflight : t.inflight ≡ s.inflight
  pub running : t.running_loads ≡ s.running_loads

-- Entries may be gone; those that are left are as they were, and so is what the index says of them.
pub record IsThinned (s t : CacheState) : Type 0 where
  pub loads : SameLoads s t
  pub next_id : t.next_id ≡ s.next_id
  pub fewer : length t.entries ≤ length s.entries
  pub survivor :
      (c : RouteCandidates) (e : Entry)
      → find candidates_eq t.entries c ≡ some e
      → find candidates_eq s.entries c ≡ some e
  pub still_indexed :
      (c : RouteCandidates) (e : Entry) (key : RouteKey)
      → find candidates_eq t.entries c ≡ some e
      → indexed t.index key c ≡ indexed s.index key c

pub IsThinned-refl : (s : CacheState) → IsThinned s s
IsThinned-refl s = record {
  loads = record { inflight = refl; running = refl };
  next_id = refl;
  fewer = omega arith;
  survivor = λ c e h. h;
  still_indexed = λ c e key h. refl;
}

pub IsThinned-trans : (s t u : CacheState) → IsThinned s t → IsThinned t u → IsThinned s u
IsThinned-trans s t u a b = record {
  loads = record {
    inflight = b.loads.inflight ∙ a.loads.inflight;
    running = b.loads.running ∙ a.loads.running;
  };
  next_id = b.next_id ∙ a.next_id;
  fewer = omega (arith, a.fewer, b.fewer);
  survivor = λ c e h. a.survivor c e (b.survivor c e h);
  still_indexed =
      λ c e key h. b.still_indexed c e key h ∙ a.still_indexed c e key (b.survivor c e h);
}

remove_held :
    (s : CacheState) (c d : RouteCandidates) (e : Entry)
    → find candidates_eq (remove candidates_eq s.entries c) d ≡ some e
    → (candidates_eq c d ≡ false) × (find candidates_eq s.entries d ≡ some e)
remove_held s c d e h = ground (arith, find-remove candidates_eq candidates_eq_iff s.entries c d)

pub remove_entry-IsThinned : (s : CacheState) (c : RouteCandidates) → IsThinned s (remove_entry s c)
unfolding remove_entry
remove_entry-IsThinned s c = elim (Option-cases (find candidates_eq s.entries c)) [
  | inl missing ↦ rw (remove_entry, missing) (IsThinned-refl s)
  | inr (entry, there) ↦
      rw (remove_entry, there)
        record {
          loads = record { inflight = refl; running = refl };
          next_id = refl;
          fewer = length-remove_le candidates_eq candidates_eq_iff s.entries c;
          survivor = λ d e h. (remove_held s c d e h).1;
          still_indexed =
              λ d e key h. indexed-unindex s.index c d (keys c) key (remove_held s c d e h).0;
        }
]

pub remove_entries-IsThinned :
    (s : CacheState) (cs : List RouteCandidates) → IsThinned s (remove_entries s cs)
unfolding remove_entries
remove_entries-IsThinned s [] = IsThinned-refl s
remove_entries-IsThinned s (c ∷ cs) =
    IsThinned-trans s (remove_entry s c) _ (remove_entry-IsThinned s c)
      (remove_entries-IsThinned (remove_entry s c) cs)

-- The order and the time of the last scan play no part.
reordered :
    (s : CacheState) (order : List (RouteCandidates × ℕ)) (last_purge : Option ℕ)
    → IsThinned s (record s { order = order; last_purge = last_purge })
reordered s order last_purge = record {
  loads = record { inflight = refl; running = refl };
  next_id = refl;
  fewer = omega arith;
  survivor = λ c e h. h;
  still_indexed = λ c e key h. refl;
}

evict-IsThinned :
    (max_entries : ℕ) (order : List (RouteCandidates × ℕ)) (s : CacheState)
    → IsThinned s (evict max_entries order s)
unfolding evict
evict-IsThinned max_entries [] s = reordered s [] s.last_purge
evict-IsThinned max_entries ((c, id) ∷ order) s =
    let next = if is_live s c id then remove_entry s c else s in
    if_ind (IsThinned s) (ltb (length s.entries) max_entries)
      (reordered s ((c, id) ∷ order) s.last_purge)
      (IsThinned-trans s next _
        (if_ind (IsThinned s) (is_live s c id) (remove_entry-IsThinned s c) (IsThinned-refl s))
        (evict-IsThinned max_entries order next))

pub purge-IsThinned :
    (s : CacheState) (now : ℕ) (config : CacheConfig) → IsThinned s (purge s now config)
unfolding purge
purge-IsThinned s now config =
    let removed = remove_entries s (dead now s.entries) in
    if_ind (IsThinned s) (purge_due config now s.last_purge)
      (IsThinned-trans s removed _ (remove_entries-IsThinned s (dead now s.entries))
        (reordered removed removed.order (some now)))
      (IsThinned-refl s)

pub make_room-IsThinned :
    (s : CacheState) (now : ℕ) (config : CacheConfig) → IsThinned s (make_room s now config)
unfolding make_room
make_room-IsThinned s now config =
    let purged = purge s now config in
    if_ind (IsThinned s) (ltb (length s.entries) config.max_entries) (IsThinned-refl s) (
      IsThinned-trans s purged _ (purge-IsThinned s now config)
        (evict-IsThinned config.max_entries purged.order purged))
