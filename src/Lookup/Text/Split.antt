-- ===== src/Lookup/Text/Split.antt =====
-- Texts cut at a character, and texts that are lowered already.
use sni_router.Common.{
  ℕ, ◌≡◌, false, [], ◌∷◌, ◌++◌, some, arith, ◌==◌, Bool-cases, Option-cases, inl, inr,
}
use sni_router.Lookup.Text.{Str, to_ascii_lowercase, contains, split_once, to_ascii_lowercase_idem}

-- A text that has no capitals is its own lowered form.
abbrev pub IsLower : Str → Type 0
IsLower s = to_ascii_lowercase s ≡ s

pub IsLower-to_ascii_lowercase : (s : Str) → IsLower (to_ascii_lowercase s)
IsLower-to_ascii_lowercase s = to_ascii_lowercase_idem s

pub IsLower-tail : (x : ℕ) (s : Str) → IsLower (x ∷ s) → IsLower s
unfolding to_ascii_lowercase
IsLower-tail x s h = cc

pub IsLower-suffix : (a s : Str) → IsLower (a ++ s) → IsLower s
IsLower-suffix [] s h = h
IsLower-suffix (x ∷ a) s h = IsLower-suffix a s (IsLower-tail x (a ++ s) h)

-- The first cut: what stands before the character does not hold it.
pub split_once-some :
    (c : ℕ) (s a b : Str) → split_once c s ≡ some (a, b) → (s ≡ a ++ c ∷ b) × (contains c a ≡ false)
unfolding split_once contains
split_once-some c [] a b h = cc
split_once-some c (x ∷ s) a b h = elim (Bool-cases (x == c)) [
  | inl here ↦ ground arith
  | inr further ↦ elim (Option-cases (split_once c s)) [
    | inl missing ↦ ground arith
    | inr ((a', b'), cut) ↦ ground (arith, split_once-some c s a' b' cut)
  ]
]

pub split_once-append :
    (c : ℕ) (a b : Str) → contains c a ≡ false → split_once c (a ++ c ∷ b) ≡ some (a, b)
unfolding split_once contains
split_once-append c [] b h = ground arith
split_once-append c (x ∷ a) b h = ground (arith, split_once-append c a b)
