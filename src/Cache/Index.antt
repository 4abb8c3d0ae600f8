-- ===== src/Cache/Index.antt =====
-- The index of the cache: what taking entries away, and adding one, does to it.
use sni_router.Common.{
  ◌≡◌, refl, ◌∙◌, Bool, true, false, ◌||◌, List, [], ◌∷◌, arith, length, ◌==◌, if◌then◌else◌,
  Bool-cases, Option-cases, inl, inr,
}
use sni_router.Lookup.RouteKey.{RouteKey, key_eq, key_eq_iff}
use sni_router.Lookup.Routes.{RouteCandidates, any_key}
use sni_router.Cache.Map.{find, put}
use sni_router.Cache.Map.Laws.{find-put, find-remove}
use sni_router.Cache.State.{candidates_eq, candidates_eq_iff}
use sni_router.Cache.Entries.{set_remove, set_insert, or_default, unindex_key, unindex, add_index}

abbrev pub Index : Type 0
Index = List (RouteKey × List RouteCandidates)

unfoldable pub in_set : List RouteCandidates → RouteCandidates → Bool
in_set [] c = false
in_set (x ∷ xs) c = if candidates_eq x c then true else in_set xs c

-- Whether the index has the candidates under the key.
unfoldable pub indexed : Index → RouteKey → RouteCandidates → Bool
unfolding in_set
indexed index key c = in_set (or_default (find key_eq index key)) c

in_set-set_remove :
    (xs : List RouteCandidates) (c d : RouteCandidates)
    → candidates_eq c d ≡ false
    → in_set (set_remove xs c) d ≡ in_set xs d
unfolding in_set set_remove
in_set-set_remove [] c d other = refl
in_set-set_remove (x ∷ xs) c d other = ground (
  arith,
  in_set-set_remove xs c d other,
  candidates_eq_iff x c,
  candidates_eq_iff x d,
  candidates_eq_iff c d,
)

empty-in_set :
    (xs : List RouteCandidates) (d : RouteCandidates)
    → (length xs == 0) ≡ true
    → in_set xs d ≡ false
unfolding in_set
empty-in_set [] d h = refl
empty-in_set (x ∷ xs) d h = ground arith

-- Taking one set of candidates off the index leaves the others on it.
indexed-unindex_key :
    (index : Index) (c d : RouteCandidates) (k key : RouteKey)
    → candidates_eq c d ≡ false
    → indexed (unindex_key index c k) key d ≡ indexed index key d
unfolding indexed unindex_key
indexed-unindex_key index c d k key other = elim (Option-cases (find key_eq index k)) [
  | inl missing ↦ rw (unindex_key, missing) refl
  | inr (set, there) ↦
      let left = set_remove set c in
      elim (Bool-cases (length left == 0)) [
        | inl gone ↦
            rw (unindex_key, there, gone, find-remove key_eq key_eq_iff index k key)
              (ground (
                arith,
                empty-in_set left d gone,
                in_set-set_remove set c d other,
                key_eq_iff k key,
                there,
              ))
        | inr some_left ↦
            rw (unindex_key, there, some_left, find-put key_eq key_eq_iff index k key left)
              (ground (arith, in_set-set_remove set c d other, key_eq_iff k key, there))
      ]
]

pub indexed-unindex :
    (index : Index) (c d : RouteCandidates) (ks : List RouteKey) (key : RouteKey)
    → candidates_eq c d ≡ false
    → indexed (unindex index c ks) key d ≡ indexed index key d
unfolding unindex
indexed-unindex index c d [] key other = refl
indexed-unindex index c d (k ∷ ks) key other =
    indexed-unindex (unindex_key index c k) c d ks key other
    ∙ indexed-unindex_key index c d k key other

in_set-set_insert :
    (xs : List RouteCandidates) (c d : RouteCandidates)
    → in_set (set_insert xs c) d ≡ (if candidates_eq c d then true else in_set xs d)
unfolding in_set set_insert
in_set-set_insert xs c d = ground (arith, in_set-set_remove xs c d)

-- Adding a set of candidates puts it under each of its keys, and leaves what was there.
pub indexed-add_index :
    (index : Index) (c d : RouteCandidates) (ks : List RouteKey) (key : RouteKey)
    → indexed (add_index index c ks) key d
      ≡ (if candidates_eq c d then any_key key ks || indexed index key d else indexed index key d)
unfolding add_index any_key indexed
indexed-add_index index c d [] key = ground arith
indexed-add_index index c d (k ∷ ks) key =
    let inserted = set_insert (or_default (find key_eq index k)) c in
    ground (
      arith,
      indexed-add_index (put key_eq index k inserted) c d ks key,
      find-put key_eq key_eq_iff index k key inserted,
      in_set-set_insert (or_default (find key_eq index k)) c d,
      key_eq_iff k key,
    )
