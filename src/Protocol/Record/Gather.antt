-- ===== src/Protocol/Record/Gather.antt =====
-- The bytes of the body, copied or not, are those of the joined payloads.
use sni_router.Common.{
  ℕ, ◌+◌, ◌-◌, ◌≤◌, ◌≡◌, refl, ap, sym, ◌∙◌, List, [], ◌∷◌, ◌++◌, arith, length, length-append,
  take, drop, slice, take-append, take-append_le, take-append_self, drop-append_self, take_all,
  length-take, drop-take, drop-drop, append_assoc, append-nil, min, Bool-cases, leb, inl, inr,
}
use sni_router.Protocol.{handshake_header_len, record_header_len}
use sni_router.Protocol.Payloads.{Range, range_len}
use sni_router.Protocol.Record.{gather, body_bytes}
use sni_router.Protocol.Record.Wire.{Fragment, frame, wire, joined, ranges}

-- The buffer behind a record header is the payload and what follows.
drop-payload :
    (offset : ℕ) (before rest : List ℕ) (f : Fragment)
    → offset ≡ length before
    → drop (offset + record_header_len) (before ++ (frame f ++ rest)) ≡ f.payload ++ rest
drop-payload offset before rest f e =
    let five : length (0x16 ∷ 0x03 ∷ f.minor ∷ f.high ∷ f.low ∷ []) ≡ 5 = refl in
    rw (
      sym (drop-drop offset 5 (before ++ (frame f ++ rest))),
      drop-append_self offset before (frame f ++ rest) e,
    )

-- A copy of `message` and of a part of a payload, cut at `m`.
take_step :
    (m : ℕ) (message payload rest : List ℕ)
    → length message ≤ m
    → take m ((message ++ take (min (m - length message) (length payload)) payload) ++ rest)
      ≡ take m (message ++ (payload ++ rest))
take_step m message payload rest h = elim (Bool-cases (leb (length payload) (m - length message))) [
  | inl whole ↦
      let e : min (m - length message) (length payload) ≡ length payload = ground arith in
      rw (e, take_all (length payload) payload (omega arith), append_assoc message payload rest)
  | inr part ↦
      let e : min (m - length message) (length payload) ≡ m - length message = ground arith in
      let short : m - length message ≤ length payload = ground arith in
      let size : m ≡ length (message ++ take (m - length message) payload) = omega (
        arith,
        length-append message (take (m - length message) payload),
        length-take (m - length message) payload,
      ) in
      rw e (
        take-append_self m (message ++ take (m - length message) payload) rest size
        ∙ sym (
            rw (
              take-append m message (payload ++ rest),
              take_all m message h,
              take-append_le (m - length message) payload rest short,
            )))
]

gather-cons :
    (buf : List ℕ) (m : ℕ) (message : List ℕ) (r : Range) (rs : List Range)
    → gather buf m message (r ∷ rs)
      ≡ gather buf m
          (message ++ slice r.start (r.start + min (m - length message) (range_len r)) buf)
          rs
unfolding gather
gather-cons buf m message r rs = refl

gather-nil : (buf : List ℕ) (m : ℕ) (message : List ℕ) → gather buf m message [] ≡ message
unfolding gather
gather-nil buf m message = refl

gather-ranges :
    (m : ℕ) (before : List ℕ) (fs : List Fragment) (rest message : List ℕ)
    → length message ≤ m
    → gather (before ++ (wire fs ++ rest)) m message (ranges (length before) fs)
      ≡ take m (message ++ joined fs)
gather-ranges m before [] rest message h =
    gather-nil _ m message ∙ rw append-nil (sym (take_all m message h))
gather-ranges m before (f ∷ fs) rest message h =
    let o = length before in
    let taken = min (m - length message) (length f.payload) in
    let len : o + record_header_len + length f.payload - (o + record_header_len)
        ≡ length f.payload =
      omega arith in
    let cut : o + record_header_len + taken - (o + record_header_len) ≡ taken = omega arith in
    let fits : taken ≤ length f.payload = omega arith in
    let next : length (before ++ frame f) ≡ o + record_header_len + length f.payload =
      omega (arith, length-append before (frame f)) in
    let small : length (message ++ take taken f.payload) ≤ m =
      omega (arith, length-append message (take taken f.payload), length-take taken f.payload) in
    let regroup : before ++ (wire (f ∷ fs) ++ rest) ≡ (before ++ frame f) ++ (wire fs ++ rest) =
      rw (append_assoc before (frame f) (wire fs ++ rest), append_assoc (frame f) (wire fs) rest) in
    let there : slice (o + record_header_len) (o + record_header_len + taken)
          (before ++ (wire (f ∷ fs) ++ rest))
        ≡ take taken f.payload =
      rw
        (cut, append_assoc (frame f) (wire fs) rest, drop-payload o before (wire fs ++ rest) f refl)
        (take-append_le taken f.payload (wire fs ++ rest) fits) in
    rw (gather-cons, len, there)
      (rw (regroup, sym next)
        (gather-ranges m (before ++ frame f) fs rest (message ++ take taken f.payload) small
          ∙ take_step m message f.payload (joined fs) h))

-- The path without a copy, for a ClientHello in one record, yields what the copy would.
pub body_bytes-gather_one :
    (buf : List ℕ) (n : ℕ) (r : Range)
    → handshake_header_len + n ≤ range_len r
    → body_bytes buf (handshake_header_len + n) (r ∷ [])
      ≡ drop handshake_header_len (gather buf (handshake_header_len + n) [] (r ∷ []))
unfolding body_bytes
body_bytes-gather_one buf n r h =
    let m : r.start + (4 + n) - (r.start + 4) ≡ n = omega arith in
    let k : r.start + min (4 + n - 0) (range_len r) - r.start ≡ 4 + n = omega arith in
    rw (
      m,
      gather-cons buf (4 + n) [] r [],
      k,
      drop-take 4 n (drop r.start buf),
      drop-drop r.start 4 buf,
    )

body_bytes-several :
    (buf : List ℕ) (m : ℕ) (r s : Range) (rs : List Range)
    → body_bytes buf m (r ∷ s ∷ rs) ≡ drop handshake_header_len (gather buf m [] (r ∷ s ∷ rs))
unfolding body_bytes
body_bytes-several buf m r s rs = refl

-- The bytes of the body are those of the joined payloads, behind the handshake header.
pub body_bytes-joined :
    (n : ℕ) (fs : List Fragment) (rest : List ℕ)
    → handshake_header_len + n ≤ length (joined fs)
    → body_bytes (wire fs ++ rest) (handshake_header_len + n) (ranges 0 fs)
      ≡ drop handshake_header_len (take (handshake_header_len + n) (joined fs))
body_bytes-joined n [] rest h = absurd (omega arith)
body_bytes-joined n (f ∷ []) rest h =
    let size : length (joined (f ∷ [])) ≡ length f.payload = rw (append-nil f.payload) in
    body_bytes-gather_one (wire (f ∷ []) ++ rest) n _ (omega arith)
    ∙ ap (drop 4) (gather-ranges (4 + n) [] (f ∷ []) rest [] (omega arith))
body_bytes-joined n (f ∷ g ∷ fs) rest h =
    body_bytes-several (wire (f ∷ g ∷ fs) ++ rest) (4 + n) _ _ _
    ∙ ap (drop 4) (gather-ranges (4 + n) [] (f ∷ g ∷ fs) rest [] (omega arith))
