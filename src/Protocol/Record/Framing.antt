-- ===== src/Protocol/Record/Framing.antt =====
-- The walk over the records finds a ClientHello exactly where the records hold one.
use sni_router.Common.{
  ℕ, zero, suc, ◌+◌, ◌≤◌, ◌≡◌, refl, ◌∙◌, List, [], ◌∷◌, ◌++◌, Option, none, some, ok, arith,
  length, length-append, drop, drop-append_self, append_assoc, append-nil, inl, inr,
}
use sni_router.Protocol.{HelloLimits}
use sni_router.Protocol.Header.Stream.{declared}
use sni_router.Protocol.Record.{RecordLayout, Walk, start, round, scan, scan_records}
use sni_router.Protocol.Record.Wire.{
  Fragment, frame, wire, joined, AllFragments, CompletesAt, IsFraming, wire-append,
}
-- The state of the walk behind some records.
use sni_router.Protocol.Record.Behind.{
  Behind, start-Behind, IsLayout, end_of_round, length-joined_snoc, joined_snoc, round-Behind,
  end-more, end-done, declared-prefix,
}

-- The state of a walk that will succeed: what is behind it and what is in front of it.
pub record Ahead (limits : HelloLimits) (n : ℕ) (buf : List ℕ) (seen post : List Fragment)
    (rest : List ℕ) : Type 0 where
  pub buffer : buf ≡ wire seen ++ (wire post ++ rest)
  pub fragments : AllFragments post
  pub records : length seen + length post ≤ limits.max_records
  pub declares : declared limits (joined seen ++ joined post) ≡ ok (some n)
  pub completes : CompletesAt (length (joined seen)) (4 + n) post

round-Ahead :
    {limits : HelloLimits} {n : ℕ} {buf : List ℕ} {seen post : List Fragment} {f : Fragment}
    {rest : List ℕ} {w : Walk} (len : Option ℕ)
    → Ahead limits n buf seen (f ∷ post) rest
    → Behind seen w
    → declared limits (joined seen ++ f.payload) ≡ ok len
    → round limits w (drop w.offset buf) ≡ ok (end_of_round seen w f len)
round-Ahead {limits} {seen = seen} {post} {f} {rest} {w} len a b d =
    rw
      (
        a.buffer,
        drop-append_self w.offset (wire seen) (wire (f ∷ post) ++ rest) b.offset,
        append_assoc (frame f) (wire post) rest,
      )
      (round-Behind limits seen w f (wire post ++ rest) len b a.fragments.0
        (omega (arith, a.records)) d)

Ahead-step :
    {limits : HelloLimits} {n : ℕ} {buf : List ℕ} {seen post : List Fragment} {f g : Fragment}
    {rest : List ℕ}
    → Ahead limits n buf seen (f ∷ g ∷ post) rest
    → Ahead limits n buf (seen ++ f ∷ []) (g ∷ post) rest
Ahead-step {limits} {n} {seen = seen} {post} {f} {g} {rest} a = record {
  buffer =
      a.buffer
      ∙ rw (
        wire-append seen (f ∷ []),
        append-nil (frame f),
        append_assoc (wire seen) (frame f) (wire (g ∷ post) ++ rest),
        append_assoc (frame f) (wire (g ∷ post)) rest,
      );
  fragments = a.fragments.1;
  records = omega (arith, a.records, length-append seen (f ∷ []));
  declares =
      rw (joined_snoc seen f, append_assoc (joined seen) f.payload (joined (g ∷ post))) a.declares;
  completes = rw (length-joined_snoc seen f) a.completes.1;
}

scan_complete :
    (fuel : ℕ) (limits : HelloLimits) (n : ℕ) (buf : List ℕ) (seen post : List Fragment)
    (rest : List ℕ) (w : Walk)
    → length post ≤ fuel
    → Ahead limits n buf seen post rest
    → Behind seen w
    → (layout : RecordLayout) × (scan fuel limits buf w ≡ ok layout)
      × IsLayout n (seen ++ post) layout
unfolding scan
scan_complete fuel limits n buf seen [] rest w h a b = absurd a.completes
scan_complete zero limits n buf seen (f ∷ post) rest w h a b = absurd (omega arith)
scan_complete (suc fuel) limits n buf seen (f ∷ []) rest w h a b =
    let whole : declared limits (joined seen ++ f.payload) ≡ ok (some n) =
      rw (append-nil f.payload) at a.declares in
    let (layout, e, l) = end-done seen w f n b a.completes in
    (layout, rw (round-Ahead (some n) a b whole, e, scan), l)
scan_complete (suc fuel) limits n buf seen (f ∷ g ∷ post) rest w h a b =
    elim (declared-prefix limits (joined seen ++ f.payload) (joined (g ∷ post)) n
      (rw (append_assoc (joined seen) f.payload (joined (g ∷ post))) a.declares)) [
        | inl d ↦
            let (w', e, b') = end-more seen w f none n b (inl refl) in
            let (layout, s, l) =
              scan_complete fuel limits n buf (seen ++ f ∷ []) (g ∷ post) rest w' (omega arith)
                (Ahead-step a) b' in
            (
              layout,
              rw (round-Ahead none a b d, e, scan) s,
              rw (append_assoc seen (f ∷ []) (g ∷ post)) at l,
            )
        | inr d ↦
            let (w', e, b') = end-more seen w f (some n) n b (inr (refl, a.completes.0)) in
            let (layout, s, l) =
              scan_complete fuel limits n buf (seen ++ f ∷ []) (g ∷ post) rest w' (omega arith)
                (Ahead-step a) b' in
            (
              layout,
              rw (round-Ahead (some n) a b d, e, scan) s,
              rw (append_assoc seen (f ∷ []) (g ∷ post)) at l,
            )
      ]

length-fragments : (fs : List Fragment) → length fs ≤ length (wire fs)
length-fragments [] = omega arith
length-fragments (f ∷ fs) = omega (arith, length-fragments fs, length-append (frame f) (wire fs))

-- Records that hold a ClientHello are found, whatever follows them.
pub scan_records_complete :
    (limits : HelloLimits) (n : ℕ) (fs : List Fragment) (rest : List ℕ)
    → IsFraming limits n fs
    → (layout : RecordLayout) × (scan_records (wire fs ++ rest) limits ≡ ok layout)
      × IsLayout n fs layout
unfolding scan_records
scan_records_complete limits n fs rest h =
    scan_complete (suc (length (wire fs ++ rest))) limits n (wire fs ++ rest) [] fs rest start
      (omega (arith, length-append (wire fs) rest, length-fragments fs))
      (record {
        buffer = refl;
        fragments = h.fragments;
        records = omega (arith, h.records);
        declares = h.declares;
        completes = h.completes;
      })
      start-Behind
