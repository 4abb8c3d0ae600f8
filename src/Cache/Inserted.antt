-- ===== src/Cache/Inserted.antt =====
-- What an insertion into the cache does to its entries, its index and its loads.
use sni_router.Common.{
  ℕ, ◌+◌, ◌*◌, ◌≤◌, ◌≡◌, ◌⊎◌, refl, sym, ◌∙◌, true, false, List, [], ◌∷◌, ◌++◌, some, length, ltb,
  ◌==◌, arith, if_ind, Option-cases, Bool-cases, inl, inr,
}
use sni_router.Lookup.RouteKey.{RouteKey}
use sni_router.Lookup.Routes
use sni_router.Lookup.Routes.{RouteCandidates, RouteHits, any_key, keys}
use sni_router.Cache.Map.{find, put}
use sni_router.Cache.Map.Laws.{find-put}
use sni_router.Cache.State.{CacheConfig, CacheState, Entry, candidates_eq, candidates_eq_iff}
use sni_router.Cache.Entries.{
  take_id, make_room, reserve, live_order, compact_order, entry_of, insert,
}
use sni_router.Cache.Index.{indexed, indexed-add_index}
use sni_router.Cache.Thinned.{SameLoads, IsThinned, make_room-IsThinned}

-- The index finds every entry under each key that it could answer.
pub record IsIndexed (s : CacheState) : Type 0 where
  pub under :
      (c : RouteCandidates) (e : Entry) (key : RouteKey)
      → find candidates_eq s.entries c ≡ some e
      → Routes.contains c key ≡ true
      → indexed s.index key c ≡ true

pub IsThinned-IsIndexed : (s t : CacheState) → IsThinned s t → IsIndexed s → IsIndexed t
IsThinned-IsIndexed s t thin i = record {
  under = λ c e key h covered.
      thin.still_indexed c e key h ∙ i.under c e key (thin.survivor c e h) covered;
}

-- Behind an insertion an entry is the new one or one from before.
pub record IsInserted (s t : CacheState) (c : RouteCandidates) (hits : RouteHits) : Type 0 where
  pub loads : SameLoads s t
  pub next_id : s.next_id ≤ t.next_id
  pub origin :
      (d : RouteCandidates) (e : Entry)
      → find candidates_eq t.entries d ≡ some e
      → ((d ≡ c) × (e.hits ≡ hits)) ⊎ (find candidates_eq s.entries d ≡ some e)
  pub keeps_index : IsIndexed s → IsIndexed t

-- A state with a place for the candidates in its index.
record IsReserved (s r : CacheState) (c : RouteCandidates) : Type 0 where
  loads : SameLoads s r
  next_id : r.next_id ≡ s.next_id
  survivor :
      (d : RouteCandidates) (e : Entry)
      → find candidates_eq r.entries d ≡ some e
      → find candidates_eq s.entries d ≡ some e
  indexed_new :
      (key : RouteKey) → IsIndexed s → Routes.contains c key ≡ true → indexed r.index key c ≡ true
  indexed_old :
      (d : RouteCandidates) (e : Entry) (key : RouteKey)
      → candidates_eq c d ≡ false
      → find candidates_eq r.entries d ≡ some e
      → indexed r.index key d ≡ indexed s.index key d

reserve-IsReserved :
    (s : CacheState) (now : ℕ) (config : CacheConfig) (c : RouteCandidates)
    → IsReserved s (reserve s now config c) c
unfolding reserve Routes.contains
reserve-IsReserved s now config c = elim (Option-cases (find candidates_eq s.entries c)) [
  | inr (old, there) ↦
      rw (reserve, there)
        record {
          loads = record { inflight = refl; running = refl };
          next_id = refl;
          survivor = λ d e h. h;
          indexed_new = λ key i covered. i.under c old key there covered;
          indexed_old = λ d e key other h. refl;
        }
  | inl missing ↦
      let room = make_room s now config in
      let thin = make_room-IsThinned s now config in
      rw (reserve, missing)
        record {
          loads = record { inflight = thin.loads.inflight; running = thin.loads.running };
          next_id = thin.next_id;
          survivor = thin.survivor;
          indexed_new = λ key i covered.
              indexed-add_index room.index c c (keys c) key
              ∙ rw ((candidates_eq_iff c c).1 refl, covered) refl;
          indexed_old = λ d e key other h.
              indexed-add_index room.index c d (keys c) key
              ∙ rw other (thin.still_indexed d e key h);
        }
]

compacted :
    (s t : CacheState) (c : RouteCandidates) (hits : RouteHits) (order : List (RouteCandidates × ℕ))
    → IsInserted s t c hits
    → IsInserted s (record t { order = order }) c hits
compacted s t c hits order i = record {
  loads = record { inflight = i.loads.inflight; running = i.loads.running };
  next_id = i.next_id;
  origin = i.origin;
  keeps_index = λ x. record { under = (i.keeps_index x).under };
}

put-origin :
    (jittered : ℕ → ℕ → ℕ) (now : ℕ) (config : CacheConfig) (m : List (RouteCandidates × Entry))
    (c d : RouteCandidates) (hits : RouteHits) (id : ℕ) (e : Entry)
    → find candidates_eq (put candidates_eq m c (entry_of jittered now config hits id)) d ≡ some e
    → ((candidates_eq c d ≡ true) × (e.hits ≡ hits))
      ⊎ ((candidates_eq c d ≡ false) × (find candidates_eq m d ≡ some e))
unfolding entry_of
put-origin jittered now config m c d hits id e h =
    let law =
      find-put candidates_eq candidates_eq_iff m c d (entry_of jittered now config hits id) in
    elim (Bool-cases (candidates_eq c d)) [
      | inl same ↦ inl (same, ground arith)
      | inr other ↦ inr (other, ground arith)
    ]

-- With room for entries, an insertion puts the hits under the candidates.
insert_held :
    (jittered : ℕ → ℕ → ℕ) (now : ℕ) (config : CacheConfig) (s r : CacheState) (c : RouteCandidates)
    (hits : RouteHits) (id : ℕ) (order : List (RouteCandidates × ℕ))
    → IsReserved (record s { next_id = s.next_id + 1 }) r c
    → IsInserted s
        (record r {
          entries = put candidates_eq r.entries c (entry_of jittered now config hits id);
          order = order;
        })
        c
        hits
insert_held jittered now config s r c hits id order i = record {
  loads = record { inflight = i.loads.inflight; running = i.loads.running };
  next_id = omega (arith, i.next_id);
  origin = λ d e h. elim (put-origin jittered now config r.entries c d hits id e h) [
    | inl (same, new) ↦ inl (sym ((candidates_eq_iff c d).0 same), new)
    | inr (other, old) ↦ inr (i.survivor d e old)
  ];
  keeps_index = λ x.
      let x' : IsIndexed (record s { next_id = s.next_id + 1 }) = record { under = x.under } in
      record {
        under = λ d e key h covered.
            elim (put-origin jittered now config r.entries c d hits id e h) [
              | inl (same, new) ↦
                  let e' : c ≡ d = (candidates_eq_iff c d).0 same in
                  ground (arith, i.indexed_new key x', covered)
              | inr (other, old) ↦
                  i.indexed_old d e key other old ∙ x.under d e key (i.survivor d e old) covered
            ];
      };
}

unchanged : (s : CacheState) (c : RouteCandidates) (hits : RouteHits) → IsInserted s s c hits
unchanged s c hits = record {
  loads = record { inflight = refl; running = refl };
  next_id = omega arith;
  origin = λ d e h. inr h;
  keeps_index = λ i. i;
}

pub insert-IsInserted :
    (jittered : ℕ → ℕ → ℕ) (now : ℕ) (config : CacheConfig) (s : CacheState) (c : RouteCandidates)
    (hits : RouteHits)
    → IsInserted s (insert jittered now config s c hits) c hits
unfolding insert take_id compact_order
insert-IsInserted jittered now config s c hits =
    let r = reserve (take_id s).1 now config c in
    let id = s.next_id in
    let held = record r {
      entries = put candidates_eq r.entries c (entry_of jittered now config hits id);
      order = r.order ++ (c, id) ∷ [];
    } in
    let done : IsInserted s held c hits =
      insert_held jittered now config s r c hits id (r.order ++ (c, id) ∷ [])
        (reserve-IsReserved (take_id s).1 now config c) in
    if_ind (λ t. IsInserted s t c hits) (config.max_entries == 0) (unchanged s c hits)
      (if_ind (λ t. IsInserted s t c hits) (ltb (config.max_entries * 2) (length held.order))
        (compacted s held c hits (live_order held held.order) done) done)
