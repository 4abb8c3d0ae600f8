-- ===== src/Cache/Entries.antt =====
-- crates/sni_router/src/cache.rs: `CacheState`, the entries with their index and their order.
use sni_router.Common.{
  ℕ, ◌+◌, ◌*◌, ◌-◌, Bool, true, false, List, [], ◌∷◌, ◌++◌, Option, none, some, length, ltb, leb,
  ◌==◌, if◌then◌else◌,
}
use sni_router.Lookup.RouteKey.{RouteKey, key_eq}
use sni_router.Lookup.Routes
use sni_router.Lookup.Routes.{RouteCandidates, RouteHits, keys}
use sni_router.Cache.Map.{find, put, remove}
use sni_router.Cache.State.{CacheConfig, CacheState, Entry, candidates_eq, later}

unfoldable pub take_id : CacheState → ℕ × CacheState
take_id s = (s.next_id, record s { next_id = s.next_id + 1 })

-- The set of candidates, as a list that holds each once.
unfoldable pub set_remove : List RouteCandidates → RouteCandidates → List RouteCandidates
set_remove [] c = []
set_remove (x ∷ xs) c = let rest = set_remove xs c in if candidates_eq x c then rest else x ∷ rest

unfoldable pub set_insert : List RouteCandidates → RouteCandidates → List RouteCandidates
unfolding set_remove
set_insert xs c = c ∷ set_remove xs c

abbrev pub or_default {ℓ} : {A : Type ℓ} → Option (List A) → List A
or_default none = []
or_default (some xs) = xs

-- The body of the loop of `remove_entry`.
unfoldable pub unindex_key :
    List (RouteKey × List RouteCandidates)
    → RouteCandidates
    → RouteKey
    → List (RouteKey × List RouteCandidates)
unindex_key index c key = elim (find key_eq index key) [
  | none ↦ index
  | some indexed ↦
      let left = set_remove indexed c in
      if length left == 0 then remove key_eq index key else put key_eq index key left
]

unfoldable pub unindex :
    List (RouteKey × List RouteCandidates)
    → RouteCandidates
    → List RouteKey
    → List (RouteKey × List RouteCandidates)
unfolding unindex_key
unindex index c [] = index
unindex index c (key ∷ rest) = unindex (unindex_key index c key) c rest

unfoldable pub remove_entry : CacheState → RouteCandidates → CacheState
unfolding unindex
remove_entry s c = elim (find candidates_eq s.entries c) [
  | none ↦ s
  | some entry ↦ record s {
    entries = remove candidates_eq s.entries c;
    index = unindex s.index c (keys c);
  }
]

unfoldable pub remove_entries : CacheState → List RouteCandidates → CacheState
unfolding remove_entry
remove_entries s [] = s
remove_entries s (c ∷ rest) = remove_entries (remove_entry s c) rest

-- Whether the order record is that of the entry that is held.
unfoldable pub is_live : CacheState → RouteCandidates → ℕ → Bool
is_live s c id = elim (find candidates_eq s.entries c) [
  | none ↦ false
  | some entry ↦ entry.id == id
]

unfoldable pub dead : ℕ → List (RouteCandidates × Entry) → List RouteCandidates
dead now [] = []
dead now ((c, entry) ∷ rest) =
    let more = dead now rest in if leb entry.stale_until now then c ∷ more else more

abbrev pub purge_due : CacheConfig → ℕ → Option ℕ → Bool
purge_due config now none = true
purge_due config now (some last) = leb config.negative_ttl (now - last)

-- The loop of `make_room`, on the order that is left.
unfoldable pub evict : ℕ → List (RouteCandidates × ℕ) → CacheState → CacheState
unfolding remove_entry is_live
evict max_entries [] s = record s { order = [] }
evict max_entries ((c, id) ∷ order) s =
    let rest = evict max_entries order (if is_live s c id then remove_entry s c else s) in
    if ltb (length s.entries) max_entries then record s { order = (c, id) ∷ order } else rest

-- The full scan of `make_room`, when it is due.
unfoldable pub purge : CacheState → ℕ → CacheConfig → CacheState
unfolding dead remove_entries
purge s now config =
    if purge_due config now s.last_purge
    then record (remove_entries s (dead now s.entries)) { last_purge = some now }
    else s

unfoldable pub make_room : CacheState → ℕ → CacheConfig → CacheState
unfolding evict purge
make_room s now config =
    let purged = purge s now config in
    if ltb (length s.entries) config.max_entries
    then s
    else evict config.max_entries purged.order purged

unfoldable pub add_index :
    List (RouteKey × List RouteCandidates)
    → RouteCandidates
    → List RouteKey
    → List (RouteKey × List RouteCandidates)
unfolding set_insert
add_index index c [] = index
add_index index c (key ∷ rest) =
    add_index (put key_eq index key (set_insert (or_default (find key_eq index key)) c)) c rest

-- A slot for a candidate set that is not cached yet.
unfoldable pub reserve : CacheState → ℕ → CacheConfig → RouteCandidates → CacheState
unfolding make_room add_index
reserve s now config c = elim (find candidates_eq s.entries c) [
  | some entry ↦ s
  | none ↦
      let room = make_room s now config in record room { index = add_index room.index c (keys c) }
]

unfoldable pub live_order : CacheState → List (RouteCandidates × ℕ) → List (RouteCandidates × ℕ)
unfolding is_live
live_order s [] = []
live_order s ((c, id) ∷ rest) =
    let more = live_order s rest in if is_live s c id then (c, id) ∷ more else more

unfoldable pub compact_order : CacheState → CacheConfig → CacheState
unfolding live_order
compact_order s config =
    if ltb (config.max_entries * 2) (length s.order)
    then record s { order = live_order s s.order }
    else s

abbrev duration_or_zero : Option ℕ → ℕ
duration_or_zero none = 0
duration_or_zero (some d) = d

unfoldable pub entry_of : (ℕ → ℕ → ℕ) → ℕ → CacheConfig → RouteHits → ℕ → Entry
unfolding later
entry_of jittered now config hits id =
    let ttl = if Routes.is_empty hits then config.negative_ttl else jittered config.ttl id in
    let expires = later now ttl in
    record {
      hits = hits;
      expires = expires;
      stale_until = later expires (duration_or_zero config.stale_if_error);
      id = id;
    }

-- The jitter is a function of the duration and the id.
unfoldable pub insert :
    (ℕ → ℕ → ℕ) → ℕ → CacheConfig → CacheState → RouteCandidates → RouteHits → CacheState
unfolding take_id entry_of reserve compact_order
insert jittered now config s c hits =
    if config.max_entries == 0
    then s
    else (let id = (take_id s).0 in
        let reserved = reserve (take_id s).1 now config c in
        let held = record reserved {
          entries = put candidates_eq reserved.entries c (entry_of jittered now config hits id);
          order = reserved.order ++ (c, id) ∷ [];
        } in
        compact_order held config)
