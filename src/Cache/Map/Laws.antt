-- ===== src/Cache/Map/Laws.antt =====
-- What a map holds behind each operation, for keys with a Boolean equality.
use sni_router.Common.{
  suc, ◌≤◌, ◌≡◌, ◌↔◌, refl, ◌∙◌, Bool, true, false, List, [], ◌∷◌, none, some, arith, if◌then◌else◌,
  length,
}
use sni_router.Cache.Map.{retain, find, put, remove}

module _ {ℓ κ} {K : Type ℓ} {V : Type κ} (eq : K → K → Bool)
    (same : (a b : K) → (eq a b ≡ true) ↔ (a ≡ b)) where
  pub find-retain_out :
      (keep : K → Bool) (m : List (K × V)) (key : K)
      → keep key ≡ false
      → find eq (retain keep m) key ≡ none
  unfolding find retain
  find-retain_out keep [] key out = refl
  find-retain_out keep ((k, v) ∷ m) key out =
      ground (arith, find-retain_out keep m key out, (same k key).0)

  pub find-retain_in :
      (keep : K → Bool) (m : List (K × V)) (key : K)
      → keep key ≡ true
      → find eq (retain keep m) key ≡ find eq m key
  unfolding find retain
  find-retain_in keep [] key held = refl
  find-retain_in keep ((k, v) ∷ m) key held =
      ground (arith, find-retain_in keep m key held, (same k key).0)

  pub find-put :
      (m : List (K × V)) (key k : K) (value : V)
      → find eq (put eq m key value) k ≡ (if eq key k then some value else find eq m k)
  unfolding find put
  find-put [] key k value = refl
  find-put ((j, v) ∷ m) key k value =
      ground (arith, find-put m key k value, same j key, same j k, same key k)

  pub find-remove :
      (m : List (K × V)) (key k : K)
      → find eq (remove eq m key) k ≡ (if eq key k then none else find eq m k)
  unfolding find remove
  find-remove [] key k = ground arith
  find-remove ((j, v) ∷ m) key k =
      ground (arith, find-remove m key k, same j key, same j k, same key k)

  pub find-put_same :
      (m : List (K × V)) (key : K) (value : V) → find eq (put eq m key value) key ≡ some value
  find-put_same m key value = find-put m key key value ∙ rw ((same key key).1 refl) refl

  -- A map in which nothing is found is empty.
  pub empty_of_find : (m : List (K × V)) → ((k : K) → find eq m k ≡ none) → m ≡ []
  unfolding find
  empty_of_find [] h = refl
  empty_of_find ((k, v) ∷ m) h = ground (arith, h k, (same k k).1)

  pub length-put_old :
      (m : List (K × V)) (key : K) (value old : V)
      → find eq m key ≡ some old
      → length (put eq m key value) ≡ length m
  unfolding find put
  length-put_old [] key value old h = cc
  length-put_old ((k, v) ∷ m) key value old h = ground (arith, length-put_old m key value old)

  pub length-put_le :
      (m : List (K × V)) (key : K) (value : V) → length (put eq m key value) ≤ suc (length m)
  unfolding put
  length-put_le [] key value = omega arith
  length-put_le ((k, v) ∷ m) key value = ground (arith, length-put_le m key value)

  pub length-remove_le : (m : List (K × V)) (key : K) → length (remove eq m key) ≤ length m
  unfolding remove
  length-remove_le [] key = omega arith
  length-remove_le ((k, v) ∷ m) key = ground (arith, length-remove_le m key)
