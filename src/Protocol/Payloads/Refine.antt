-- ===== src/Protocol/Payloads/Refine.antt =====
-- The payload ranges, inline or on the heap, are a list to which `push` appends.
use sni_router.Common.{
  suc, ◌+◌, ◌≤◌, ◌≡◌, refl, [], ◌∷◌, ◌++◌, arith, length, length-set, length-take_le, take-set, ltb,
  ltb→lt, Bool-cases, inl, inr,
}
use sni_router.Protocol.Payloads.{
  Payloads, Range, inline, heap, inline_records, new, len, push, as_slice,
}

abbrev pub IsWf : Payloads → Type 0
IsWf (inline ranges n) = (length ranges ≡ inline_records) × (n ≤ inline_records)
IsWf (heap ranges) = Unit

pub new-IsWf : IsWf new
unfolding new
new-IsWf = omega arith

pub as_slice-new : as_slice new ≡ []
unfolding new as_slice
as_slice-new = refl

pub push-IsWf : (p : Payloads) (r : Range) → IsWf p → IsWf (push p r)
unfolding push
push-IsWf (inline ranges n) r h = ground (arith, length-set ranges n r)
push-IsWf (heap ranges) r h = tt

-- Pushing onto well-formed ranges appends to the slice they stand for, also when they spill to the heap.
pub as_slice-push : (p : Payloads) (r : Range) → IsWf p → as_slice (push p r) ≡ as_slice p ++ r ∷ []
unfolding push as_slice
as_slice-push (inline ranges n) r h = elim (Bool-cases (ltb n inline_records)) [
  | inl room ↦ rw room (
      let lt = ltb→lt n inline_records room in
      let e : n + 1 ≡ suc n = omega arith in rw e (take-set n ranges r (omega arith)))
  | inr full ↦ rw full
]
as_slice-push (heap ranges) r h = refl

pub len-as_slice : (p : Payloads) → IsWf p → len p ≡ length (as_slice p)
unfolding len as_slice
len-as_slice (inline ranges n) h = omega (arith, length-take_le n ranges)
len-as_slice (heap ranges) h = refl
