-- ===== src/Protocol/Record/Growing.antt =====
-- crates/sni_router/src/protocol/record.rs: one round of the walk over a buffer that has grown since.
use sni_router.Common.{
  ℕ, ◌-◌, ◌<◌, ◌≡◌, ◌≢◌, ap, sym, ◌∙◌, Bool, false, List, [], ◌∷◌, ◌++◌, ok, err, ◌>>=◌, arith,
  length, take, take-append, append_assoc, ◌==◌, ltb, inl, inr, Result-cases,
}
use sni_router.Protocol.{HelloLimits, ParseError, incomplete, record_header_len}
use sni_router.Protocol.Header.{check_partial_record_header, check_record_header}
use sni_router.Protocol.Header.Stream.{header_of, declared, observe-header_of}
use sni_router.Protocol.Record.{Walk, Round, round, read_payload}
use sni_router.Protocol.Record.Wire.{frame}
use sni_router.Protocol.Record.Rounds.{round-frame, round-ok}

declared-append_err :
    (limits : HelloLimits) (a b : List ℕ) (e : ParseError)
    → declared limits a ≡ err e
    → declared limits (a ++ b) ≡ err e
declared-append_err limits [] b e h = cc
declared-append_err limits (x ∷ []) b e h = ground arith
declared-append_err limits (x ∷ y ∷ []) b e h = ground arith
declared-append_err limits (x ∷ y ∷ z ∷ []) b e h = ground arith
declared-append_err limits (x ∷ y ∷ z ∷ u ∷ a) b e h = h

check_partial-append :
    (h x : List ℕ) (first : Bool) (e : ParseError)
    → check_partial_record_header h first ≡ err e
    → check_partial_record_header (h ++ x) first ≡ err e
unfolding check_partial_record_header
check_partial-append [] x first e h = cc
check_partial-append (a ∷ []) [] first e h = h
check_partial-append (a ∷ []) (y ∷ x) first e h = ground arith
check_partial-append (a ∷ b ∷ r) x first e h = h

-- A record header that is refused by its first bytes is refused.
round-partial :
    (limits : HelloLimits) (w : Walk) (tail : List ℕ) (e : ParseError)
    → check_partial_record_header tail (w.offset == 0) ≡ err e
    → round limits w tail ≡ err e
unfolding round check_record_header
round-partial limits w [] e h = ground arith
round-partial limits w (a ∷ []) e h = ground arith
round-partial limits w (a ∷ b ∷ []) e h = ground arith
round-partial limits w (a ∷ b ∷ c ∷ []) e h = ground arith
round-partial limits w (a ∷ b ∷ c ∷ d ∷ []) e h = ground arith
round-partial limits w (a ∷ b ∷ c ∷ d ∷ u ∷ r) e h =
    let full : ltb (length (a ∷ b ∷ c ∷ d ∷ u ∷ r)) record_header_len ≡ false = ground arith in
    rw full (ground arith)

read_payload-append :
    (limits : HelloLimits) (w : Walk) (seen rest x : List ℕ) (a b c d u n : ℕ) (e : ParseError)
    → w.header ≡ header_of seen
    → e ≢ incomplete
    → read_payload limits w (a ∷ b ∷ c ∷ d ∷ u ∷ rest) n ≡ err e
    → read_payload limits w (a ∷ b ∷ c ∷ d ∷ u ∷ (rest ++ x)) n ≡ err e
unfolding read_payload
read_payload-append limits w seen rest x a b c d u n e s real h =
    let s1 = observe-header_of limits seen (take n rest) in
    let s2 = observe-header_of limits seen (take n (rest ++ x)) in
    let t = take-append n rest x in
    let ass = append_assoc seen (take n rest) (take (n - length rest) x) in
    ground (
      arith,
      s1,
      s2,
      t,
      ass,
      real,
      declared-append_err limits (seen ++ take n rest) (take (n - length rest) x) e,
    )

-- A round on a record that is all there does not look behind it.
pub round-append_ok :
    (limits : HelloLimits) (seen : List ℕ) (w : Walk) (tail x : List ℕ) (r : Round)
    → w.header ≡ header_of seen
    → round limits w tail ≡ ok r
    → round limits w (tail ++ x) ≡ ok r
round-append_ok limits seen w tail x r s h =
    let (f, rest, e, v) = round-ok limits w tail r h in
    rw (e, append_assoc (frame f) rest x)
      (round-frame limits w f seen (rest ++ x) v s
        ∙ sym (round-frame limits w f seen rest v s)
        ∙ ap (round limits w) (sym e)
        ∙ h)

-- On a header that has not all arrived, a round fails by the check of what is there.
round_short :
    (limits : HelloLimits) (w : Walk) (tail : List ℕ) (e : ParseError)
    → length tail < record_header_len
    → e ≢ incomplete
    → round limits w tail ≡ err e
    → check_partial_record_header tail (w.offset == 0) ≡ err e
unfolding round
round_short limits w tail e short real h = ground (arith, real)

round_long :
    (limits : HelloLimits) (w : Walk) (a b c d u : ℕ) (rest : List ℕ)
    → round limits w (a ∷ b ∷ c ∷ d ∷ u ∷ rest) ≡ (do
      n ← check_record_header (a ∷ b ∷ c ∷ d ∷ u ∷ []) (w.offset == 0)
      read_payload limits w (a ∷ b ∷ c ∷ d ∷ u ∷ rest) n)
unfolding round
round_long limits w a b c d u rest =
    let full : ltb (length (a ∷ b ∷ c ∷ d ∷ u ∷ rest)) record_header_len ≡ false = ground arith in
    rw full

round-append_long :
    (limits : HelloLimits) (w : Walk) (seen rest x : List ℕ) (a b c d u : ℕ) (e : ParseError)
    → w.header ≡ header_of seen
    → e ≢ incomplete
    → round limits w (a ∷ b ∷ c ∷ d ∷ u ∷ rest) ≡ err e
    → round limits w (a ∷ b ∷ c ∷ d ∷ u ∷ (rest ++ x)) ≡ err e
round-append_long limits w seen rest x a b c d u e s real h =
    elim (Result-cases (check_record_header (a ∷ b ∷ c ∷ d ∷ u ∷ []) (w.offset == 0))) [
      | inl (n, checked) ↦
          rw (round_long, checked)
            (read_payload-append limits w seen rest x a b c d u n e s real
              (rw (round_long limits w a b c d u rest, checked) at h))
      | inr (e', refused) ↦
          rw (round_long, refused) (rw (round_long limits w a b c d u rest, refused) at h)
    ]

round-append_short :
    (limits : HelloLimits) (w : Walk) (tail x : List ℕ) (e : ParseError)
    → length tail < record_header_len
    → e ≢ incomplete
    → round limits w tail ≡ err e
    → round limits w (tail ++ x) ≡ err e
round-append_short limits w tail x e short real h =
    round-partial limits w (tail ++ x) e
      (check_partial-append tail x (w.offset == 0) e (round_short limits w tail e short real h))

pub round-append_err :
    (limits : HelloLimits) (seen : List ℕ) (w : Walk) (tail x : List ℕ) (e : ParseError)
    → w.header ≡ header_of seen
    → e ≢ incomplete
    → round limits w tail ≡ err e
    → round limits w (tail ++ x) ≡ err e
round-append_err limits seen w (a ∷ b ∷ c ∷ d ∷ u ∷ rest) x e s real h =
    round-append_long limits w seen rest x a b c d u e s real h
round-append_err limits seen w tail x e s real h =
    round-append_short limits w tail x e (omega arith) real h
