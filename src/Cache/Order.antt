-- ===== src/Cache/Order.antt =====
-- crates/sni_router/src/cache.rs: the order of the entries, and the number of them.
use sni_router.Common.{
  ℕ, ◌<◌, ◌≡◌, refl, ◌∙◌, Bool, true, false, ◌&&◌, List, [], ◌∷◌, ◌++◌, some, length, ltb, ◌==◌,
  ==_iff, arith, if◌then◌else◌, if_ind, if_cases, ltb→lt, Option-cases, Bool-cases, inl, inr,
}
use sni_router.Lookup.Routes.{RouteCandidates}
use sni_router.Cache.Map.{find}
use sni_router.Cache.Map.Laws.{empty_of_find}
use sni_router.Cache.State.{CacheConfig, CacheState, Entry, candidates_eq, candidates_eq_iff}
use sni_router.Cache.Entries.{
  remove_entry, remove_entries, is_live, evict, purge, purge_due, dead, make_room,
}
use sni_router.Cache.Thinned.{remove_entry-IsThinned, purge-IsThinned, IsThinned}
use sni_router.Cache.Invalidation.{find-remove_entry}

abbrev pub Order : Type 0
Order = List (RouteCandidates × ℕ)

unfoldable pub in_order : Order → RouteCandidates → ℕ → Bool
in_order [] c id = false
in_order ((d, j) ∷ order) c id = if candidates_eq d c && j == id then true else in_order order c id

pub in_order-append :
    (order more : Order) (c : RouteCandidates) (id : ℕ)
    → in_order (order ++ more) c id ≡ (if in_order order c id then true else in_order more c id)
unfolding in_order
in_order-append [] more c id = refl
in_order-append ((d, j) ∷ order) more c id = ground (arith, in_order-append order more c id)

-- Every entry has its record in the order.
pub record Covers (order : Order) (s : CacheState) : Type 0 where
  pub has :
      (c : RouteCandidates) (e : Entry)
      → find candidates_eq s.entries c ≡ some e
      → in_order order c e.id ≡ true

pub Covers-IsThinned :
    (order : Order) (s t : CacheState) → IsThinned s t → Covers order s → Covers order t
Covers-IsThinned order s t thin i = record { has = λ c e h. i.has c e (thin.survivor c e h) }

pub remove_entry-order : (s : CacheState) (c : RouteCandidates) → (remove_entry s c).order ≡ s.order
unfolding remove_entry
remove_entry-order s c = ground arith

pub remove_entries-order :
    (s : CacheState) (cs : List RouteCandidates) → (remove_entries s cs).order ≡ s.order
unfolding remove_entries
remove_entries-order s [] = refl
remove_entries-order s (c ∷ cs) =
    remove_entries-order (remove_entry s c) cs ∙ remove_entry-order s c

purge-order :
    (s : CacheState) (now : ℕ) (config : CacheConfig) → (purge s now config).order ≡ s.order
unfolding purge
purge-order s now config =
    if_ind (λ (t : CacheState). t.order ≡ s.order) (purge_due config now s.last_purge)
      (remove_entries-order s (dead now s.entries)) refl

pub is_live-held :
    (s : CacheState) (c : RouteCandidates) (e : Entry)
    → find candidates_eq s.entries c ≡ some e
    → is_live s c e.id ≡ true
unfolding is_live
is_live-held s c e h = rw (is_live, h) ((==_iff e.id e.id).1 refl)

-- A record that is dead may go from the front of the order, and one that is live with its entry.
skip-Covers :
    (order : Order) (s : CacheState) (c : RouteCandidates) (id : ℕ)
    → is_live s c id ≡ false
    → Covers ((c, id) ∷ order) s
    → Covers order s
unfolding in_order
skip-Covers order s c id dead i = record {
  has = λ d e h. elim (Bool-cases (candidates_eq c d && id == e.id)) [
    | inr other ↦ rw other at (i.has d e h)
    | inl same ↦
        let place : c ≡ d = (candidates_eq_iff c d).0 (ground arith) in
        let number : id ≡ e.id = ground arith in
        absurd (cc (is_live-held s d e h, rw (place, number) at dead))
  ];
}

take-Covers :
    (order : Order) (s : CacheState) (c : RouteCandidates) (id : ℕ)
    → Covers ((c, id) ∷ order) s
    → Covers order (remove_entry s c)
unfolding in_order
take-Covers order s c id i = record {
  has = λ d e h. elim (Bool-cases (candidates_eq c d)) [
    | inr other ↦ ground (arith, i.has d e ((remove_entry-IsThinned s c).survivor d e h))
    | inl same ↦
        let place : c ≡ d = (candidates_eq_iff c d).0 same in
        absurd (cc (find-remove_entry s c, rw place at h))
  ];
}

pop-Covers :
    (order : Order) (s : CacheState) (c : RouteCandidates) (id : ℕ)
    → Covers ((c, id) ∷ order) s
    → Covers order (if is_live s c id then remove_entry s c else s)
pop-Covers order s c id i =
    if_cases (Covers order) (is_live s c id) (λ live. take-Covers order s c id i)
      (λ dead. skip-Covers order s c id dead i)

-- When the loop of `make_room` is done there is room for one entry more.
pub record HasRoom (max_entries : ℕ) (s : CacheState) : Type 0 where
  pub covered : Covers s.order s
  pub room : length s.entries < max_entries

evict-HasRoom :
    (max_entries : ℕ) (order : Order) (s : CacheState)
    → 0 < max_entries
    → Covers order s
    → HasRoom max_entries (evict max_entries order s)
unfolding evict in_order
evict-HasRoom max_entries [] s some_room i =
    let gone : s.entries ≡ [] = empty_of_find candidates_eq candidates_eq_iff s.entries (λ c.
      elim (Option-cases (find candidates_eq s.entries c)) [
        | inl missing ↦ missing
        | inr (e, there) ↦ absurd (cc (i.has c e there))
      ]) in
    record { covered = record { has = i.has }; room = rw gone some_room }
evict-HasRoom max_entries ((c, id) ∷ order) s some_room i =
    if_cases (HasRoom max_entries) (ltb (length s.entries) max_entries)
      (λ room. record { covered = record { has = i.has }; room = ltb→lt _ _ room })
      (λ full.
        evict-HasRoom max_entries order (if is_live s c id then remove_entry s c else s) some_room
          (pop-Covers order s c id i))

pub make_room-HasRoom :
    (s : CacheState) (now : ℕ) (config : CacheConfig)
    → 0 < config.max_entries
    → Covers s.order s
    → HasRoom config.max_entries (make_room s now config)
unfolding make_room
make_room-HasRoom s now config some_room i =
    let purged = purge s now config in
    if_cases (HasRoom config.max_entries) (ltb (length s.entries) config.max_entries)
      (λ room. record { covered = i; room = ltb→lt _ _ room })
      (λ full. evict-HasRoom config.max_entries purged.order purged some_room (
        rw (purge-order s now config)
          (Covers-IsThinned s.order s purged (purge-IsThinned s now config) i)))
