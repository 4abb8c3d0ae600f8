-- ===== src/Protocol/Record/Total.antt =====
-- The fuel of the walk is enough, and a walk that stops for want of bytes really wants bytes.
use sni_router.Common.{
  ℕ, zero, suc, ◌≤◌, ◌<◌, ◌≡◌, ◌≢◌, refl, ap, sym, ◌∙◌, List, [], ◌∷◌, ◌++◌, ok, err, arith, length,
  length-append, drop, drop-append_self, append_assoc, append-nil, inl, inr, Result-cases,
}
use sni_router.Protocol.{
  HelloLimits, ParseError, incomplete, not_handshake, invalid_record, not_client_hello, too_large,
  malformed, invalid_server_name,
}
use sni_router.Protocol.Record.{
  RecordLayout, Walk, start, round, scan, scan_records, parse_client_hello,
}
use sni_router.Protocol.Record.Wire.{Fragment, frame, wire, IsFraming, append-wire_snoc}
use sni_router.Protocol.Record.Behind.{Behind, start-Behind}
use sni_router.Protocol.Record.Framing.{scan_records_complete}
use sni_router.Protocol.Record.Passes.{
  round-Passed, ends, goes_on, Ends-or_goes_on, scan-done, scan-more, scan-err,
}
use sni_router.Protocol.Record.Sound.{scan_records_sound}
use sni_router.Protocol.Record.Prefix.{scan_records-append_err}

scan_fuel :
    (f g : ℕ) (limits : HelloLimits) (buf : List ℕ) (seen : List Fragment) (tail : List ℕ)
    (w : Walk)
    → buf ≡ wire seen ++ tail
    → Behind seen w
    → length tail < f
    → length tail < g
    → scan f limits buf w ≡ scan g limits buf w
scan_fuel zero g limits buf seen tail w e b hf hg = absurd (omega arith)
scan_fuel (suc f) zero limits buf seen tail w e b hf hg = absurd (omega arith)
scan_fuel (suc f) (suc g) limits buf seen tail w e b hf hg =
    let front : drop w.offset buf ≡ tail =
      rw e (drop-append_self w.offset (wire seen) tail b.offset) in
    elim (Result-cases (round limits w (drop w.offset buf))) [
      | inr (x, failed) ↦ scan-err f limits buf w x failed ∙ sym (scan-err g limits buf w x failed)
      | inl (r, passed) ↦
          let p = round-Passed limits seen w tail r b (rw front at passed) in
          elim (Ends-or_goes_on seen w p.f p.len b) [
            | ends n found len enough result l ↦
                let h = passed ∙ ap ok (p.result ∙ result) in
                scan-done f limits buf w found h ∙ sym (scan-done g limits buf w found h)
            | goes_on w' short result b' ↦
                let h = passed ∙ ap ok (p.result ∙ result) in
                let size = ap length p.tail_eq in
                scan-more f limits buf w w' h
                ∙ scan_fuel f g limits buf (seen ++ p.f ∷ []) p.rest w'
                    (e ∙ ap (◌++◌ (wire seen)) p.tail_eq ∙ append-wire_snoc seen p.f p.rest) b'
                    (omega (arith, length-append (frame p.f) p.rest))
                    (omega (arith, length-append (frame p.f) p.rest))
                ∙ sym (scan-more g limits buf w w' h)
          ]
    ]

-- Any fuel above the length of the buffer yields what the walk yields: it never stops for fuel.
pub scan_records_fuel :
    (limits : HelloLimits) (buf : List ℕ) (fuel : ℕ)
    → length buf < fuel
    → scan fuel limits buf start ≡ scan_records buf limits
unfolding scan_records
scan_records_fuel limits buf fuel h =
    scan_fuel fuel (suc (length buf)) limits buf [] buf start refl start-Behind h (omega arith)

-- A layout ends within the buffer.
scan_records-consumed :
    (limits : HelloLimits) (buf : List ℕ) (layout : RecordLayout)
    → scan_records buf limits ≡ ok layout
    → layout.consumed ≤ length buf
scan_records-consumed limits buf layout h =
    let (n, fs, rest, e, _, l) = scan_records_sound limits buf layout h in
    let size = ap length e in omega (arith, l.consumed, length-append (wire fs) rest)

-- Any error but one is ruled out.
is_incomplete : (e : ParseError) → (e ≢ incomplete → ⊥) → e ≡ incomplete
is_incomplete incomplete h = refl
is_incomplete not_handshake h = absurd (h (λ q. cc))
is_incomplete invalid_record h = absurd (h (λ q. cc))
is_incomplete not_client_hello h = absurd (h (λ q. cc))
is_incomplete too_large h = absurd (h (λ q. cc))
is_incomplete (malformed s) h = absurd (h (λ q. cc))
is_incomplete (invalid_server_name x) h = absurd (h (λ q. cc))

scan_records_prefix :
    (limits : HelloLimits) (n : ℕ) (fs : List Fragment) (a b : List ℕ)
    → IsFraming limits n fs
    → wire fs ≡ a ++ b
    → 0 < length b
    → scan_records a limits ≡ err incomplete
scan_records_prefix limits n fs a b framing cut some_more =
    let (whole, found, l) = scan_records_complete limits n fs [] framing in
    let at_cut : scan_records (a ++ b) limits ≡ ok whole = rw (← cut) (rw append-nil at found) in
    elim (Result-cases (scan_records a limits)) [
      | inr (e, failed) ↦
          failed
          ∙ ap err (is_incomplete e λ real. cc (scan_records-append_err limits a b e real failed))
      | inl (layout, found') ↦
          let (n', fs', rest, e, framing', l') = scan_records_sound limits a layout found' in
          let (again, found'', l'') = scan_records_complete limits n' fs' (rest ++ b) framing' in
          let same : whole ≡ again = cc (at_cut, found'', append_assoc (wire fs') rest b) in
          let size = ap length e in
          let size' = ap length cut in
          let c : whole.consumed ≡ again.consumed = ap (λ (x : RecordLayout). x.consumed) same in
          absurd (
            omega (
              arith,
              l.consumed,
              l''.consumed,
              c,
              length-append a b,
              length-append (wire fs') rest,
            ))
    ]

-- A ClientHello whose records and message are within the limits is neither accepted nor refused before the last
-- byte of its records has arrived: the parse of any shorter beginning is incomplete.
pub parse_client_hello_prefix :
    (limits : HelloLimits) (n : ℕ) (fs : List Fragment) (a b : List ℕ)
    → IsFraming limits n fs
    → wire fs ≡ a ++ b
    → 0 < length b
    → parse_client_hello a limits ≡ err incomplete
unfolding parse_client_hello
parse_client_hello_prefix limits n fs a b framing cut some_more =
    rw (scan_records_prefix limits n fs a b framing cut some_more)
