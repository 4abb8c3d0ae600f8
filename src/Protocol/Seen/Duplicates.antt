-- ===== src/Protocol/Seen/Duplicates.antt =====
-- Sorting and looking at neighbours finds exactly the lists that hold a value twice.
use sni_router.Common.{
  ℕ, suc, ◌+◌, ◌≤◌, ◌<◌, ◌≡◌, ◌↔◌, refl, true, false, List, [], ◌∷◌, ◌++◌, arith, length,
  length-set, take-set, ltb, ltb→lt, ◌==◌, if◌then◌else◌, Bool-cases, inl, inr,
}
use sni_router.Protocol.Seen.{
  SeenTypes, inline, heap, inline_extensions, new, push, as_mut_slice, insert_sorted, sort_unstable,
  any_equal_pair, has_duplicate,
}

-- How often a value stands in a list.
abbrev pub count : ℕ → List ℕ → ℕ
count a [] = 0
count a (b ∷ bs) = if b == a then suc (count a bs) else count a bs

abbrev pub IsWf : SeenTypes → Type 0
IsWf (inline types len) = (length types ≡ inline_extensions) × (len ≤ inline_extensions)
IsWf (heap values) = Unit

pub new-IsWf : IsWf new
unfolding new
new-IsWf = omega arith

pub as_mut_slice-new : as_mut_slice new ≡ []
unfolding new as_mut_slice
as_mut_slice-new = refl

pub push-IsWf : (s : SeenTypes) (v : ℕ) → IsWf s → IsWf (push s v)
unfolding push
push-IsWf (inline types len) v h = ground (arith, length-set types len v)
push-IsWf (heap values) v h = tt

-- Pushing onto well-formed types appends to the slice they stand for, also when they spill to the heap.
pub as_mut_slice-push :
    (s : SeenTypes) (v : ℕ) → IsWf s → as_mut_slice (push s v) ≡ as_mut_slice s ++ v ∷ []
unfolding push as_mut_slice
as_mut_slice-push (inline types len) v h = elim (Bool-cases (ltb len inline_extensions)) [
  | inl room ↦
      let lt = ltb→lt len inline_extensions room in
      let e : len + 1 ≡ suc len = omega arith in rw (room, e) (take-set len types v (omega arith))
  | inr full ↦ rw full
]
as_mut_slice-push (heap values) v h = refl

count-insert_sorted : (a b : ℕ) (xs : List ℕ) → count a (insert_sorted b xs) ≡ count a (b ∷ xs)
unfolding insert_sorted
count-insert_sorted a b [] = refl
count-insert_sorted a b (x ∷ xs) = ground (arith, count-insert_sorted a b xs)

count-sort : (a : ℕ) (xs : List ℕ) → count a (sort_unstable xs) ≡ count a xs
unfolding sort_unstable
count-sort a [] = refl
count-sort a (x ∷ xs) = ground (arith, count-insert_sorted a x (sort_unstable xs), count-sort a xs)

-- Sorted, with every value at least `bound`.
abbrev From : ℕ → List ℕ → Type 0
From bound [] = Unit
From bound (x ∷ xs) = (bound ≤ x) × From x xs

From-mono : (a b : ℕ) (xs : List ℕ) → a ≤ b → From b xs → From a xs
From-mono a b [] h f = tt
From-mono a b (x ∷ xs) h f = (omega arith, f.1)

insert_sorted-From :
    (bound a : ℕ) (xs : List ℕ) → bound ≤ a → From bound xs → From bound (insert_sorted a xs)
unfolding insert_sorted
insert_sorted-From bound a [] h f = (h, tt)
insert_sorted-From bound a (x ∷ xs) h f =
    ground (arith, insert_sorted-From x a xs, From-mono a x xs)

sort-From : (xs : List ℕ) → From 0 (sort_unstable xs)
unfolding sort_unstable
sort-From [] = tt
sort-From (x ∷ xs) = insert_sorted-From 0 x (sort_unstable xs) (omega arith) (sort-From xs)

count_below : (a bound : ℕ) (xs : List ℕ) → From bound xs → a < bound → count a xs ≡ 0
count_below a bound [] f h = refl
count_below a bound (x ∷ xs) f h = ground (arith, count_below a x xs f.1)

-- In a sorted list without equal neighbours nothing stands twice.
count-le_one :
    (a bound : ℕ) (xs : List ℕ) → From bound xs → any_equal_pair xs ≡ false → count a xs ≤ 1
unfolding any_equal_pair
count-le_one a bound [] f h = omega arith
count-le_one a bound (x ∷ []) f h = ground arith
count-le_one a bound (x ∷ y ∷ xs) f h =
    ground (arith, count-le_one a x (y ∷ xs) f.1, count_below a y xs f.1.1)

-- Equal neighbours stand twice.
any_equal_pair-count : (xs : List ℕ) → any_equal_pair xs ≡ true → (a : ℕ) × (2 ≤ count a xs)
unfolding any_equal_pair
any_equal_pair-count [] h = cc
any_equal_pair-count (x ∷ []) h = cc
any_equal_pair-count (x ∷ y ∷ xs) h = elim (Bool-cases (x == y)) [
  | inl same ↦ (x, ground arith)
  | inr differ ↦
      let rest : any_equal_pair (y ∷ xs) ≡ true = ground arith in
      let (a, twice) = any_equal_pair-count (y ∷ xs) rest in (a, ground arith)
]

-- The check reports a duplicate exactly when some type stands twice among those seen.
pub has_duplicate_iff :
    (s : SeenTypes) → (has_duplicate s ≡ false) ↔ ((a : ℕ) → count a (as_mut_slice s) ≤ 1)
unfolding has_duplicate
has_duplicate_iff s = (forward, backward)
  where
    forward : has_duplicate s ≡ false → (a : ℕ) → count a (as_mut_slice s) ≤ 1
    forward h a = omega (
      arith,
      count-sort a (as_mut_slice s),
      count-le_one a 0 (sort_unstable (as_mut_slice s)) (sort-From (as_mut_slice s)) h,
    )

    backward : ((a : ℕ) → count a (as_mut_slice s) ≤ 1) → has_duplicate s ≡ false
    backward once = elim (Bool-cases (any_equal_pair (sort_unstable (as_mut_slice s)))) [
      | inr h ↦ h
      | inl h ↦
          let (a, twice) = any_equal_pair-count (sort_unstable (as_mut_slice s)) h in
          absurd (omega (arith, once a, count-sort a (as_mut_slice s)))
    ]
