-- ===== src/Protocol/Seen.antt =====
-- crates/sni_router/src/protocol/hello.rs: the extension types seen so far, and the check for
-- duplicates.
pub mod Duplicates
use sni_router.Common.{
  ℕ, ◌+◌, ◌≤◌, ◌≡◌, Bool, true, false, ◌||◌, List, [], ◌∷◌, ◌++◌, length, set, take, replicate, ltb,
  leb, ◌==◌, if◌then◌else◌,
}

abbrev pub inline_extensions : ℕ
inline_extensions = 32

pub data SeenTypes : Type 0 where
  inline : List ℕ → ℕ → SeenTypes
  heap : List ℕ → SeenTypes

unfoldable pub new : SeenTypes
new = inline (replicate inline_extensions 0) 0

unfoldable pub push : SeenTypes → ℕ → SeenTypes
push (inline types len) value =
    if ltb len inline_extensions
    then inline (set types len value) (len + 1)
    else heap (take len types ++ value ∷ [])
push (heap values) value = heap (values ++ value ∷ [])

unfoldable pub as_mut_slice : SeenTypes → List ℕ
as_mut_slice (inline types len) = take len types
as_mut_slice (heap values) = values

-- `sort_unstable` on numbers has one result, whatever the algorithm.
unfoldable pub insert_sorted : ℕ → List ℕ → List ℕ
insert_sorted a [] = a ∷ []
insert_sorted a (b ∷ bs) = if leb a b then a ∷ b ∷ bs else b ∷ insert_sorted a bs

unfoldable pub sort_unstable : List ℕ → List ℕ
unfolding insert_sorted
sort_unstable [] = []
sort_unstable (a ∷ rest) = insert_sorted a (sort_unstable rest)

-- `windows(2).any(|pair| pair[0] == pair[1])`.
unfoldable pub any_equal_pair : List ℕ → Bool
any_equal_pair [] = false
any_equal_pair (a ∷ []) = false
any_equal_pair (a ∷ b ∷ rest) = a == b || any_equal_pair (b ∷ rest)

unfoldable pub has_duplicate : SeenTypes → Bool
unfolding sort_unstable any_equal_pair as_mut_slice
has_duplicate seen = any_equal_pair (sort_unstable (as_mut_slice seen))
