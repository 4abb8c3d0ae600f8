-- ===== src/Protocol/Record/Passes.antt =====
-- crates/sni_router/src/protocol/record.rs: what one round of the walk over the records does, when it does not
-- fail.
use sni_router.Common.{
  ℕ, suc, ◌+◌, ◌≤◌, ◌<◌, ◌≡◌, ◌≢◌, refl, ap, sym, ◌∙◌, List, [], ◌∷◌, ◌++◌, Option, none, some, ok,
  err, reject_if, arith, length, length-append, drop, ◌==◌, leb, Bool-cases, inl, inr, ◌⊎◌,
  >>=-eq-ok,
}
use sni_router.Protocol.{HelloLimits, ParseError, too_large}
use sni_router.Protocol.Payloads
use sni_router.Protocol.Header.Stream.{declared}
use sni_router.Protocol.Record.{RecordLayout, Walk, Round, done, more, round, scan}
use sni_router.Protocol.Record.Wire.{Fragment, frame, joined, IsFragment}
use sni_router.Protocol.Record.Rounds.{round-frame, round-ok}
use sni_router.Protocol.Record.Behind.{
  Behind, IsLayout, end_of_round, end-more, end-done, len-Behind, length-ranges,
}

-- What a round that did not fail says of the record that it read.
pub record Passed (limits : HelloLimits) (seen : List Fragment) (w : Walk) (tail : List ℕ)
    (r : Round) : Type 0 where
  pub f : Fragment
  pub rest : List ℕ
  pub len : Option ℕ
  pub tail_eq : tail ≡ frame f ++ rest
  pub fragment : IsFragment f
  pub room : length seen ≢ limits.max_records
  pub declares : declared limits (joined seen ++ f.payload) ≡ ok len
  pub result : r ≡ end_of_round seen w f len

pub round-Passed :
    (limits : HelloLimits) (seen : List Fragment) (w : Walk) (tail : List ℕ) (r : Round)
    → Behind seen w
    → round limits w tail ≡ ok r
    → Passed limits seen w tail r
round-Passed limits seen w tail r b h =
    let (f, rest, e, v) = round-ok limits w tail r h in
    let h' =
      sym (round-frame limits w f (joined seen) rest v b.header)
      ∙ ap (round limits w) (sym e)
      ∙ h in
    let (u, counted, h1) =
      >>=-eq-ok (reject_if (Payloads.len w.payloads == limits.max_records) too_large) _ h' in
    let (len, d, h2) = >>=-eq-ok (declared limits (joined seen ++ f.payload)) _ h1 in
    record {
      f = f;
      rest = rest;
      len = len;
      tail_eq = e;
      fragment = v;
      room = λ full. full_contradiction (len-Behind b ∙ length-ranges 0 seen ∙ full) counted;
      declares = d;
      result = cc;
    }
  where
    full_contradiction :
        {u : Unit {0}}
        → Payloads.len w.payloads ≡ limits.max_records
        → reject_if (Payloads.len w.payloads == limits.max_records) too_large ≡ ok u
        → ⊥
    full_contradiction e c = ground arith

-- How a round ends: with the layout, or with more to read.
pub data Ends (seen : List Fragment) (f : Fragment) (len : Option ℕ) (r : Round) : Type 0 where
  ends :
      (n : ℕ) (layout : RecordLayout)
      → len ≡ some n
      → 4 + n ≤ length (joined seen) + length f.payload
      → r ≡ done layout
      → IsLayout n (seen ++ f ∷ []) layout
      → Ends seen f len r
  goes_on :
      (w : Walk)
      → (len ≡ none) ⊎ ((m : ℕ) × (len ≡ some m) × (length (joined seen ++ f.payload) < 4 + m))
      → r ≡ more w
      → Behind (seen ++ f ∷ []) w
      → Ends seen f len r

pub Ends-or_goes_on :
    (seen : List Fragment) (w : Walk) (f : Fragment) (len : Option ℕ)
    → Behind seen w
    → Ends seen f len (end_of_round seen w f len)
Ends-or_goes_on seen w f none b =
    let (w', e, b') = end-more seen w f none 0 b (inl refl) in goes_on w' (inl refl) e b'
Ends-or_goes_on seen w f (some n) b =
    elim (Bool-cases (leb (4 + n) (length (joined seen) + length f.payload))) [
      | inl enough ↦
          let le : 4 + n ≤ length (joined seen) + length f.payload = ground arith in
          let (layout, e, l) = end-done seen w f n b le in ends n layout refl le e l
      | inr short ↦
          let lt : length (joined seen) + length f.payload < 4 + n = ground arith in
          let (w', e, b') = end-more seen w f (some n) n b (inr (refl, lt)) in
          goes_on w' (inr (n, refl, omega (arith, length-append (joined seen) f.payload))) e b'
    ]

pub scan-done :
    (fuel : ℕ) (limits : HelloLimits) (buf : List ℕ) (w : Walk) (layout : RecordLayout)
    → round limits w (drop w.offset buf) ≡ ok (done layout)
    → scan (suc fuel) limits buf w ≡ ok layout
unfolding scan
scan-done fuel limits buf w layout h = rw (h, scan)

pub scan-more :
    (fuel : ℕ) (limits : HelloLimits) (buf : List ℕ) (w w' : Walk)
    → round limits w (drop w.offset buf) ≡ ok (more w')
    → scan (suc fuel) limits buf w ≡ scan fuel limits buf w'
unfolding scan
scan-more fuel limits buf w w' h = rw (h, scan)

pub scan-err :
    (fuel : ℕ) (limits : HelloLimits) (buf : List ℕ) (w : Walk) (e : ParseError)
    → round limits w (drop w.offset buf) ≡ err e
    → scan (suc fuel) limits buf w ≡ err e
unfolding scan
scan-err fuel limits buf w e h = rw (h, scan)
