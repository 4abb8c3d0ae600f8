-- ===== src/Protocol/Record/Sound.antt =====
-- What the walk finds is a ClientHello that the buffer really holds.
use sni_router.Common.{
  ℕ, zero, suc, ◌+◌, ◌≤◌, ◌<◌, ◌≡◌, refl, ap, sym, ◌∙◌, List, [], ◌∷◌, ◌++◌, Option, none, some, ok,
  arith, length, length-append, drop, drop-append_self, append_assoc, append-nil, inl, inr, ◌⊎◌,
  Result-cases,
}
use sni_router.Protocol.{HelloLimits}
use sni_router.Protocol.Header.Stream.{declared}
use sni_router.Protocol.Record.{RecordLayout, Walk, start, round, scan, scan_records}
use sni_router.Protocol.Record.Wire.{
  Fragment, frame, wire, joined, IsFragment, CompletesAt, IsFraming, wire-append, append-wire_snoc,
}
use sni_router.Protocol.Record.Behind.{
  Behind, start-Behind, IsLayout, length-joined_snoc, joined_snoc, declared-prefix,
}
use sni_router.Protocol.Record.Framing.{Ahead}
use sni_router.Protocol.Record.Passes.{
  round-Passed, ends, goes_on, Ends-or_goes_on, scan-done, scan-more, scan-err,
}

-- Too few bytes to declare a length.
declared-none : (limits : HelloLimits) (a : List ℕ) → declared limits a ≡ ok none → length a < 4
declared-none limits [] h = omega arith
declared-none limits (x ∷ []) h = omega arith
declared-none limits (x ∷ y ∷ []) h = omega arith
declared-none limits (x ∷ y ∷ z ∷ []) h = omega arith
declared-none limits (x ∷ y ∷ z ∷ u ∷ a) h = ground arith

-- More records behind one more record are more records.
Ahead-unstep :
    {limits : HelloLimits} {n : ℕ} {buf : List ℕ} {seen post : List Fragment} {rest : List ℕ}
    (f : Fragment)
    → IsFragment f
    → length (joined seen) + length f.payload < 4 + n
    → Ahead limits n buf (seen ++ f ∷ []) post rest
    → Ahead limits n buf seen (f ∷ post) rest
Ahead-unstep {limits} {n} {buf} {seen} {post} {rest} f v short a = record {
  buffer = a.buffer ∙ regroup;
  fragments = (v, a.fragments);
  records = omega (arith, a.records, length-append seen (f ∷ []));
  declares =
      rw (joined_snoc seen f, append_assoc (joined seen) f.payload (joined post)) at a.declares;
  completes = completes_cons post (rw (length-joined_snoc seen f) at a.completes);
}
  where
    regroup : wire (seen ++ f ∷ []) ++ (wire post ++ rest) ≡ wire seen ++ (wire (f ∷ post) ++ rest)
    regroup = rw (
      wire-append seen (f ∷ []),
      append-nil (frame f),
      append_assoc (wire seen) (frame f) (wire post ++ rest),
      append_assoc (frame f) (wire post) rest,
    )

    completes_cons :
        (fs : List Fragment)
        → CompletesAt (length (joined seen) + length f.payload) (4 + n) fs
        → CompletesAt (length (joined seen)) (4 + n) (f ∷ fs)
    completes_cons [] c = absurd c
    completes_cons (g ∷ fs) c = (short, c)

-- A message that was not complete behind a record is longer than what the record has brought.
falls_short :
    (limits : HelloLimits) (a b : List ℕ) (len : Option ℕ) (n : ℕ)
    → declared limits a ≡ ok len
    → declared limits (a ++ b) ≡ ok (some n)
    → (len ≡ none) ⊎ ((m : ℕ) × (len ≡ some m) × (length a < 4 + m))
    → length a < 4 + n
falls_short limits a b len n d whole (inl e) = omega (arith, declared-none limits a (d ∙ ap ok e))
falls_short limits a b len n d whole (inr (m, e, h)) = elim (declared-prefix limits a b n whole) [
  | inl none_yet ↦ cc
  | inr same ↦ let eq : m ≡ n = cc in omega arith
]

-- What a successful walk has found.
abbrev Found : HelloLimits → List ℕ → List Fragment → RecordLayout → Type 0
Found limits buf seen layout =
    (n : ℕ) × (post : List Fragment) × (rest : List ℕ) × Ahead limits n buf seen post rest
    × IsLayout n (seen ++ post) layout

Found-step :
    {limits : HelloLimits} {buf : List ℕ} {seen : List Fragment} {layout : RecordLayout}
    (f : Fragment) (len : Option ℕ)
    → IsFragment f
    → declared limits (joined seen ++ f.payload) ≡ ok len
    → (len ≡ none) ⊎ ((m : ℕ) × (len ≡ some m) × (length (joined seen ++ f.payload) < 4 + m))
    → Found limits buf (seen ++ f ∷ []) layout
    → Found limits buf seen layout
Found-step {limits} {buf} {seen} {layout} f len v d short (n, post, rest, a, l) =
    let whole = rw (joined_snoc seen f) at a.declares in
    let small = falls_short limits (joined seen ++ f.payload) (joined post) len n d whole short in
    (
      n,
      f ∷ post,
      rest,
      Ahead-unstep f v (omega (arith, small, length-append (joined seen) f.payload)) a,
      rw (append_assoc seen (f ∷ []) post) at l,
    )

Found-last :
    {limits : HelloLimits} {buf : List ℕ} {seen : List Fragment} {layout : RecordLayout} (n : ℕ)
    (f : Fragment) (rest : List ℕ)
    → IsFragment f
    → declared limits (joined seen ++ f.payload) ≡ ok (some n)
    → buf ≡ wire seen ++ (frame f ++ rest)
    → length seen < limits.max_records
    → 4 + n ≤ length (joined seen) + length f.payload
    → IsLayout n (seen ++ f ∷ []) layout
    → Found limits buf seen layout
Found-last n f rest v d e room enough l = (
  n,
  f ∷ [],
  rest,
  record {
    buffer = rw (append-nil f.payload) e;
    fragments = (v, tt);
    records = omega arith;
    declares = rw (append-nil f.payload) d;
    completes = enough;
  },
  l,
)

scan-zero :
    (limits : HelloLimits) (buf : List ℕ) (w : Walk) (layout : RecordLayout)
    → ¬ (scan zero limits buf w ≡ ok layout)
unfolding scan
scan-zero limits buf w layout h = cc

scan_sound :
    (fuel : ℕ) (limits : HelloLimits) (buf : List ℕ) (seen : List Fragment) (tail : List ℕ)
    (w : Walk) (layout : RecordLayout)
    → buf ≡ wire seen ++ tail
    → length seen ≤ limits.max_records
    → Behind seen w
    → scan fuel limits buf w ≡ ok layout
    → Found limits buf seen layout
scan_sound zero limits buf seen tail w layout e room b h = absurd (scan-zero limits buf w layout h)
scan_sound (suc fuel) limits buf seen tail w layout e room b h =
    elim (Result-cases (round limits w (drop w.offset buf))) [
      | inr (x, failed) ↦ cc (scan-err fuel limits buf w x failed)
      | inl (r, passed) ↦
          let front : drop w.offset buf ≡ tail =
            rw e (drop-append_self w.offset (wire seen) tail b.offset) in
          let p = round-Passed limits seen w tail r b (rw front at passed) in
          let below : length seen < limits.max_records = ground (arith, p.room) in
          let buffer : buf ≡ wire seen ++ (frame p.f ++ p.rest) = cc (p.tail_eq) in
          elim (Ends-or_goes_on seen w p.f p.len b) [
            | ends n found len enough result l ↦
                let same : layout ≡ found =
                  cc (scan-done fuel limits buf w found (passed ∙ ap ok (p.result ∙ result))) in
                Found-last n p.f p.rest p.fragment (p.declares ∙ ap ok len) buffer below enough
                  (rw same l)
            | goes_on w' short result b' ↦ Found-step p.f p.len p.fragment p.declares short (
                scan_sound fuel limits buf (seen ++ p.f ∷ []) p.rest w' layout
                  (buffer ∙ append-wire_snoc seen p.f p.rest)
                  (omega (arith, length-append seen (p.f ∷ []))) b'
                  (sym (scan-more fuel limits buf w w' (passed ∙ ap ok (p.result ∙ result))) ∙ h))
          ]
    ]

-- A layout is found only in front of a buffer that begins with records which hold a ClientHello.
pub scan_records_sound :
    (limits : HelloLimits) (buf : List ℕ) (layout : RecordLayout)
    → scan_records buf limits ≡ ok layout
    → (n : ℕ) × (fs : List Fragment) × (rest : List ℕ) × (buf ≡ wire fs ++ rest)
      × IsFraming limits n fs
      × IsLayout n fs layout
unfolding scan_records
scan_records_sound limits buf layout h =
    let (n, fs, rest, a, l) =
      scan_sound (suc (length buf)) limits buf [] buf start layout refl (omega arith) start-Behind
        h in
    (
      n,
      fs,
      rest,
      a.buffer,
      record {
        fragments = a.fragments;
        records = omega (arith, a.records);
        declares = a.declares;
        completes = a.completes;
      },
      l,
    )
