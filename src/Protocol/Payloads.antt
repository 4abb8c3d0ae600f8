-- ===== src/Protocol/Payloads.antt =====
-- crates/sni_router/src/protocol/record.rs: where the payloads of the records sit in the buffer.
pub mod Refine
use sni_router.Common.{
  ℕ, ◌+◌, ◌-◌, ◌≡◌, List, [], ◌∷◌, ◌++◌, length, set, take, replicate, ltb, if◌then◌else◌,
}

-- `start..end`.
pub record Range : Type 0 where
  pub start : ℕ
  pub stop : ℕ

-- `range.len()`.
abbrev pub range_len : Range → ℕ
range_len r = r.stop - r.start

abbrev pub inline_records : ℕ
inline_records = 4

pub data Payloads : Type 0 where
  inline : List Range → ℕ → Payloads
  heap : List Range → Payloads

unfoldable pub new : Payloads
new = inline (replicate inline_records (record { start = 0; stop = 0 })) 0

unfoldable pub len : Payloads → ℕ
len (inline ranges n) = n
len (heap ranges) = length ranges

unfoldable pub push : Payloads → Range → Payloads
push (inline ranges n) range =
    if ltb n inline_records
    then inline (set ranges n range) (n + 1)
    else heap (take n ranges ++ range ∷ [])
push (heap ranges) range = heap (ranges ++ range ∷ [])

unfoldable pub as_slice : Payloads → List Range
as_slice (inline ranges n) = take n ranges
as_slice (heap ranges) = ranges
