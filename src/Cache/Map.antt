-- ===== src/Cache/Map.antt =====
-- The maps of crates/sni_router/src/cache.rs: association lists, with the operations of a hash map.
pub mod Laws
use sni_router.Common.{
  ◌≡◌, ◌↔◌, refl, Bool, true, false, List, [], ◌∷◌, Option, none, some, arith, if◌then◌else◌,
}

-- `retain` with a test on the key.
unfoldable pub retain {ℓ κ} : {K : Type ℓ} {V : Type κ} → (K → Bool) → List (K × V) → List (K × V)
retain keep [] = []
retain keep ((k, v) ∷ m) = let rest = retain keep m in if keep k then (k, v) ∷ rest else rest

module _ {ℓ κ} {K : Type ℓ} {V : Type κ} (eq : K → K → Bool) where
  unfoldable pub find : List (K × V) → K → Option V
  find [] key = none
  find ((k, v) ∷ m) key = if eq k key then some v else find m key

  unfoldable pub put : List (K × V) → K → V → List (K × V)
  put [] key value = (key, value) ∷ []
  put ((k, v) ∷ m) key value = if eq k key then (k, value) ∷ m else (k, v) ∷ put m key value

  unfoldable pub remove : List (K × V) → K → List (K × V)
  remove [] key = []
  remove ((k, v) ∷ m) key = let rest = remove m key in if eq k key then rest else (k, v) ∷ rest
