-- ===== src/Cache/Invalidation.antt =====
-- crates/sni_router/src/cache.rs: what an invalidation leaves in the cache.
use sni_router.Common.{
  ◌≡◌, refl, ap, ◌∙◌, true, false, not, List, [], ◌∷◌, none, some, arith, if◌then◌else◌,
  Option-cases, Bool-cases, inl, inr,
}
use sni_router.Lookup.RouteKey.{RouteKey, key_eq, key_eq_iff}
use sni_router.Lookup.Routes
use sni_router.Lookup.Routes.{RouteCandidates, RouteHits}
use sni_router.Cache.Map.{find, remove}
use sni_router.Cache.Map.Laws.{find-remove, find-retain_out, find-retain_in}
use sni_router.Cache.State.{CacheState, Entry, candidates_eq, candidates_eq_iff}
use sni_router.Cache.Entries.{remove_entry, remove_entries, or_default}
use sni_router.Cache.Loads.{invalidate}
use sni_router.Cache.Index.{in_set, indexed}
use sni_router.Cache.Thinned.{IsThinned, remove_entries-IsThinned}
use sni_router.Cache.Inserted.{IsIndexed}

-- A thinned state finds nothing new.
none-IsThinned :
    (s t : CacheState) (c : RouteCandidates)
    → IsThinned s t
    → find candidates_eq s.entries c ≡ none
    → find candidates_eq t.entries c ≡ none
none-IsThinned s t c thin gone = elim (Option-cases (find candidates_eq t.entries c)) [
  | inl missing ↦ missing
  | inr (e, there) ↦ let back = thin.survivor c e there in absurd (cc)
]

pub find-remove_entry :
    (s : CacheState) (c : RouteCandidates) → find candidates_eq (remove_entry s c).entries c ≡ none
unfolding remove_entry
find-remove_entry s c = elim (Option-cases (find candidates_eq s.entries c)) [
  | inl missing ↦ rw (remove_entry, missing) missing
  | inr (entry, there) ↦
      rw (remove_entry, there)
        (find-remove candidates_eq candidates_eq_iff s.entries c c
          ∙ rw ((candidates_eq_iff c c).1 refl) refl)
]

find-remove_entries :
    (s : CacheState) (cs : List RouteCandidates) (c : RouteCandidates)
    → in_set cs c ≡ true
    → find candidates_eq (remove_entries s cs).entries c ≡ none
unfolding remove_entries in_set
find-remove_entries s [] c h = cc
find-remove_entries s (d ∷ cs) c h = elim (Bool-cases (candidates_eq d c)) [
  | inl same ↦
      none-IsThinned (remove_entry s d) _ c (remove_entries-IsThinned (remove_entry s d) cs)
        (rw ((candidates_eq_iff d c).0 same) (find-remove_entry s c))
  | inr other ↦ find-remove_entries (remove_entry s d) cs c (ground arith)
]

-- When the index finds every entry, an invalidation leaves no entry that the key could answer.
pub find-invalidate :
    (s : CacheState) (key : RouteKey) (c : RouteCandidates)
    → IsIndexed s
    → Routes.contains c key ≡ true
    → find candidates_eq (invalidate s key).entries c ≡ none
unfolding invalidate indexed
find-invalidate s key c i covered =
    let cut = record s { index = remove key_eq s.index key } in
    let named = or_default (find key_eq s.index key) in
    elim (Option-cases (find candidates_eq s.entries c)) [
      | inl missing ↦ none-IsThinned cut _ c (remove_entries-IsThinned cut named) missing
      | inr (e, there) ↦ find-remove_entries cut named c (i.under c e key there covered)
    ]

not_covered :
    (s : CacheState) (key : RouteKey) (c : RouteCandidates) (e : Entry)
    → IsIndexed s
    → find candidates_eq (invalidate s key).entries c ≡ some e
    → Routes.contains c key ≡ false
not_covered s key c e i h = elim (Bool-cases (Routes.contains c key)) [
  | inr out ↦ out
  | inl covered ↦ let gone = find-invalidate s key c i covered in absurd (cc)
]

-- The entries that an invalidation leaves were there before, and the index finds them still.
pub invalidate-IsIndexed :
    (s : CacheState) (key : RouteKey) → IsIndexed s → IsIndexed (invalidate s key)
unfolding invalidate indexed
invalidate-IsIndexed s key i = record {
  under = λ c e k h covered.
      let cut = record s { index = remove key_eq s.index key } in
      let thin = remove_entries-IsThinned cut (or_default (find key_eq s.index key)) in
      let out = not_covered s key c e i h in
      let law = find-remove key_eq key_eq_iff s.index key k in
      let before = i.under c e k (thin.survivor c e h) covered in
      thin.still_indexed c e k h ∙ ground (arith, law, before, (key_eq_iff key k).0);
}

-- An invalidation takes the slot from every load that the key could have answered, and from no other.
pub inflight-invalidate :
    (s : CacheState) (key : RouteKey) (c : RouteCandidates)
    → find candidates_eq (invalidate s key).inflight c
      ≡ (if Routes.contains c key then none else find candidates_eq s.inflight c)
unfolding invalidate
inflight-invalidate s key c =
    let cut = record s { index = remove key_eq s.index key } in
    let removed = remove_entries cut (or_default (find key_eq s.index key)) in
    let thin = remove_entries-IsThinned cut (or_default (find key_eq s.index key)) in
    elim (Bool-cases (Routes.contains c key)) [
      | inl covered ↦ rw covered (
          find-retain_out candidates_eq candidates_eq_iff (λ d. not (Routes.contains d key))
            removed.inflight c (ap not covered))
      | inr out ↦ rw out (
          find-retain_in candidates_eq candidates_eq_iff (λ d. not (Routes.contains d key))
            removed.inflight c (ap not out)
          ∙ ap (λ m. find candidates_eq m c) thin.loads.inflight)
    ]

pub invalidate-running :
    (s : CacheState) (key : RouteKey) → (invalidate s key).running_loads ≡ s.running_loads
unfolding invalidate
invalidate-running s key =
    let cut = record s { index = remove key_eq s.index key } in
    (remove_entries-IsThinned cut (or_default (find key_eq s.index key))).loads.running

pub invalidate-next_id : (s : CacheState) (key : RouteKey) → (invalidate s key).next_id ≡ s.next_id
unfolding invalidate
invalidate-next_id s key =
    let cut = record s { index = remove key_eq s.index key } in
    (remove_entries-IsThinned cut (or_default (find key_eq s.index key))).next_id

pub invalidate-survivor :
    (s : CacheState) (key : RouteKey) (c : RouteCandidates) (e : Entry)
    → find candidates_eq (invalidate s key).entries c ≡ some e
    → find candidates_eq s.entries c ≡ some e
unfolding invalidate
invalidate-survivor s key =
    let cut = record s { index = remove key_eq s.index key } in
    (remove_entries-IsThinned cut (or_default (find key_eq s.index key))).survivor
