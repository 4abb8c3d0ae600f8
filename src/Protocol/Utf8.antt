-- ===== src/Protocol/Utf8.antt =====
-- `std::str::from_utf8`: the ranges in which the bytes behind a first byte must lie.
use sni_router.Common.{
  ℕ, Bool, true, false, ◌&&◌, List, [], ◌∷◌, Option, none, some, leb, ltb, ◌==◌, if◌then◌else◌,
}

record Range : Type 0 where
  low : ℕ
  high : ℕ

abbrev from_to : ℕ → ℕ → Range
from_to a b = record { low = a; high = b }

abbrev continuation : Range
continuation = from_to 0x80 0xbf

in_range : Range → ℕ → Bool
in_range r b = leb r.low b && leb b r.high

-- What must follow a first byte; `none` on a byte that starts no character.
following : ℕ → Option (List Range)
unfolding in_range
following b =
    if ltb b 0x80
    then some []
    else if in_range (from_to 0xc2 0xdf) b
    then some (continuation ∷ [])
    else if b == 0xe0
    then some (from_to 0xa0 0xbf ∷ continuation ∷ [])
    else if b == 0xed
    then some (from_to 0x80 0x9f ∷ continuation ∷ [])
    else if in_range (from_to 0xe1 0xef) b
    then some (continuation ∷ continuation ∷ [])
    else if b == 0xf0
    then some (from_to 0x90 0xbf ∷ continuation ∷ continuation ∷ [])
    else if b == 0xf4
    then some (from_to 0x80 0x8f ∷ continuation ∷ continuation ∷ [])
    else if in_range (from_to 0xf1 0xf3) b
    then some (continuation ∷ continuation ∷ continuation ∷ [])
    else none

run : List Range → List ℕ → Bool
unfolding following in_range
run [] [] = true
run (r ∷ rs) [] = false
run [] (b ∷ bs) = elim (following b) [ none ↦ false | some rs ↦ run rs bs ]
run (r ∷ rs) (b ∷ bs) = in_range r b && run rs bs

unfoldable pub is_utf8 : List ℕ → Bool
unfolding run
is_utf8 bytes = run [] bytes
