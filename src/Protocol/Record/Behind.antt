-- ===== src/Protocol/Record/Behind.antt =====
-- The state of the walk behind some records, and what the next record makes of it.
use sni_router.Common.{
  ℕ, suc, ◌+◌, ◌≤◌, ◌<◌, ◌≡◌, refl, ap, sym, ◌∙◌, false, List, [], ◌∷◌, ◌++◌, Option, none, some,
  ok, arith, length, length-append, append-nil, ◌==◌, inl, ◌⊎◌,
}
use sni_router.Protocol.{HelloLimits, record_header_len}
use sni_router.Protocol.Payloads
use sni_router.Protocol.Payloads.{Payloads, Range}
use sni_router.Protocol.Payloads.Refine.{
  IsWf, new-IsWf, as_slice-new, push-IsWf, as_slice-push, len-as_slice,
}
use sni_router.Protocol.Header.Stream.{header_of, header_of-nil, declared}
use sni_router.Protocol.Record.{RecordLayout, Walk, Round, done, more, start, round, take_record}
use sni_router.Protocol.Record.Wire.{
  Fragment, frame, wire, joined, ranges, IsFragment, joined-append, wire-append, ranges-append,
}
use sni_router.Protocol.Record.Rounds.{round-frame}

-- The state of the walk behind some records.
pub record Behind (seen : List Fragment) (w : Walk) : Type 0 where
  pub offset : w.offset ≡ length (wire seen)
  pub wf : IsWf w.payloads
  pub slice : Payloads.as_slice w.payloads ≡ ranges 0 seen
  pub header : w.header ≡ header_of (joined seen)
  pub total : w.payload_total ≡ length (joined seen)

pub start-Behind : Behind [] start
unfolding start
start-Behind = record {
  offset = refl;
  wf = new-IsWf;
  slice = as_slice-new;
  header = sym header_of-nil;
  total = refl;
}

pub length-joined_snoc :
    (seen : List Fragment) (f : Fragment)
    → length (joined (seen ++ f ∷ [])) ≡ length (joined seen) + length f.payload
length-joined_snoc seen f =
    rw (joined-append seen (f ∷ []), append-nil f.payload) (length-append (joined seen) f.payload)

pub joined_snoc :
    (seen : List Fragment) (f : Fragment) → joined (seen ++ f ∷ []) ≡ joined seen ++ f.payload
joined_snoc seen f = rw (joined-append seen (f ∷ []), append-nil f.payload)

length-wire_snoc :
    (seen : List Fragment) (f : Fragment)
    → length (wire (seen ++ f ∷ [])) ≡ length (wire seen) + 5 + length f.payload
length-wire_snoc seen f =
    rw (wire-append seen (f ∷ []), append-nil (frame f))
      (omega (arith, length-append (wire seen) (frame f)))

pub len-Behind :
    {seen : List Fragment} {w : Walk}
    → Behind seen w
    → Payloads.len w.payloads ≡ length (ranges 0 seen)
len-Behind {seen} {w} b = len-as_slice w.payloads b.wf ∙ ap length b.slice

pub length-ranges : (offset : ℕ) (fs : List Fragment) → length (ranges offset fs) ≡ length fs
length-ranges offset [] = refl
length-ranges offset (f ∷ fs) =
    ap suc (length-ranges (offset + record_header_len + length f.payload) fs)

-- The ranges afterwards, whether or not the record completes the message.
slice-push :
    {seen : List Fragment} {w : Walk} (f : Fragment)
    → Behind seen w
    → Payloads.as_slice (
        Payloads.push w.payloads (record {
          start = w.offset + record_header_len;
          stop = w.offset + record_header_len + length f.payload;
        }))
      ≡ ranges 0 (seen ++ f ∷ [])
slice-push {seen} {w} f b =
    let e : 0 + length (wire seen) ≡ w.offset = omega (arith, b.offset) in
    rw (as_slice-push w.payloads _ b.wf, ranges-append 0 seen f, e, b.slice)

-- What the walk found, against the records.
pub record IsLayout (n : ℕ) (fs : List Fragment) (layout : RecordLayout) : Type 0 where
  pub slice : Payloads.as_slice layout.payloads ≡ ranges 0 fs
  pub handshake_len : layout.handshake_len ≡ n
  pub consumed : layout.consumed ≡ length (wire fs)

abbrev pub end_of_round : List Fragment → Walk → Fragment → Option ℕ → Round
end_of_round seen w f len =
    take_record w (header_of (joined seen ++ f.payload)) len (length f.payload)

pub round-Behind :
    (limits : HelloLimits) (seen : List Fragment) (w : Walk) (f : Fragment) (rest : List ℕ)
    (len : Option ℕ)
    → Behind seen w
    → IsFragment f
    → length seen < limits.max_records
    → declared limits (joined seen ++ f.payload) ≡ ok len
    → round limits w (frame f ++ rest) ≡ ok (end_of_round seen w f len)
round-Behind limits seen w f rest len b v room d =
    let count = len-Behind b in
    let small = length-ranges 0 seen in
    let below : (Payloads.len w.payloads == limits.max_records) ≡ false = ground arith in
    rw (round-frame limits w f (joined seen) rest v b.header, below, d)

-- A message that is not complete yet: the walk goes on behind one record more.
pub end-more :
    (seen : List Fragment) (w : Walk) (f : Fragment) (len : Option ℕ) (n : ℕ)
    → Behind seen w
    → (len ≡ none) ⊎ ((len ≡ some n) × (length (joined seen) + length f.payload < 4 + n))
    → (w' : Walk) × (end_of_round seen w f len ≡ more w') × Behind (seen ++ f ∷ []) w'
unfolding take_record
end-more seen w f len n b h = (
  record {
    offset = w.offset + record_header_len + length f.payload;
    payloads = Payloads.push w.payloads (record {
      start = w.offset + record_header_len;
      stop = w.offset + record_header_len + length f.payload;
    });
    header = header_of (joined seen ++ f.payload);
    payload_total = w.payload_total + length f.payload;
  },
  ground (arith, b.total),
  record {
    offset = omega (arith, b.offset, length-wire_snoc seen f);
    wf = push-IsWf w.payloads _ b.wf;
    slice = slice-push f b;
    header = ap header_of (sym (joined_snoc seen f));
    total = omega (arith, b.total, length-joined_snoc seen f);
  },
)

-- The record that completes the message: the walk ends with the layout.
pub end-done :
    (seen : List Fragment) (w : Walk) (f : Fragment) (n : ℕ)
    → Behind seen w
    → 4 + n ≤ length (joined seen) + length f.payload
    → (layout : RecordLayout) × (end_of_round seen w f (some n) ≡ done layout)
      × IsLayout n (seen ++ f ∷ []) layout
unfolding take_record
end-done seen w f n b h = (
  record {
    payloads = Payloads.push w.payloads (record {
      start = w.offset + record_header_len;
      stop = w.offset + record_header_len + length f.payload;
    });
    handshake_len = n;
    consumed = w.offset + record_header_len + length f.payload;
  },
  ground (arith, b.total),
  record {
    slice = slice-push f b;
    handshake_len = refl;
    consumed = omega (arith, b.offset, length-wire_snoc seen f);
  },
)

-- A part of a message declares the same length, or none yet.
pub declared-prefix :
    (limits : HelloLimits) (a b : List ℕ) (n : ℕ)
    → declared limits (a ++ b) ≡ ok (some n)
    → (declared limits a ≡ ok none) ⊎ (declared limits a ≡ ok (some n))
declared-prefix limits [] b n h = inl refl
declared-prefix limits (x ∷ []) [] n h = ground arith
declared-prefix limits (x ∷ []) (y ∷ b) n h = ground arith
declared-prefix limits (x ∷ y ∷ []) [] n h = ground arith
declared-prefix limits (x ∷ y ∷ []) (z ∷ b) n h = ground arith
declared-prefix limits (x ∷ y ∷ z ∷ []) [] n h = ground arith
declared-prefix limits (x ∷ y ∷ z ∷ []) (u ∷ b) n h = ground arith
declared-prefix limits (x ∷ y ∷ z ∷ u ∷ a) b n h = ground arith
