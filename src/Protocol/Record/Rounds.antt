-- ===== src/Protocol/Record/Rounds.antt =====
-- One round of the walk, on a record that is all there.
use sni_router.Common.{
  ℕ, ◌+◌, ◌*◌, ◌≤◌, ◌≡◌, refl, Bool, false, List, [], ◌∷◌, ◌++◌, ok, ◌>>=◌, ◌>>◌, reject_if, arith,
  length, take, drop, length-take, take-append_self, take-append-drop, length-take_le, >>=-eq-ok,
  ltb→le, ltb, ◌==◌,
}
use sni_router.Protocol.{HelloLimits, too_large, max_record_payload, record_header_len}
use sni_router.Protocol.Payloads
use sni_router.Protocol.Payloads.{Payloads, Range}
use sni_router.Protocol.Header.{check_record_header}
use sni_router.Protocol.Header.Stream.{header_of, declared, observe-header_of}
use sni_router.Protocol.Record.{Walk, Round, round, read_payload, take_record}
use sni_router.Protocol.Record.Wire.{Fragment, frame, IsFragment}

check_record_header-frame :
    (f : Fragment) (first : Bool)
    → IsFragment f
    → check_record_header (0x16 ∷ 0x03 ∷ f.minor ∷ f.high ∷ f.low ∷ []) first
      ≡ ok (length f.payload)
unfolding check_record_header
check_record_header-frame f first h = ground arith

-- A round on a record is the check of the record count, then what the bytes so far declare.
pub round-frame :
    (limits : HelloLimits) (w : Walk) (f : Fragment) (seen rest : List ℕ)
    → IsFragment f
    → w.header ≡ header_of seen
    → round limits w (frame f ++ rest) ≡ (do
      reject_if (Payloads.len w.payloads == limits.max_records) too_large
      handshake_len ← declared limits (seen ++ f.payload)
      ok (take_record w (header_of (seen ++ f.payload)) handshake_len (length f.payload)))
unfolding round read_payload
round-frame limits w f seen rest h e =
    let full : ltb (length (frame f ++ rest)) record_header_len ≡ false = ground arith in
    let all : ltb (length f.payload) (length f.payload) ≡ false = ground arith in
    rw (full, check_record_header-frame f (w.offset == 0) h)
      (rw
        (
          take-append_self (length f.payload) f.payload rest refl,
          e,
          observe-header_of limits seen f.payload,
        )
        (rw all))

check_record_header-ok :
    (a b c d e : ℕ) (first : Bool) (n : ℕ)
    → check_record_header (a ∷ b ∷ c ∷ d ∷ e ∷ []) first ≡ ok n
    → (a ≡ 0x16) × (b ≡ 0x03) × (n ≡ d * 256 + e) × (1 ≤ n) × (n ≤ max_record_payload)
unfolding check_record_header
check_record_header-ok a b c d e first n h = ground arith

read_payload-ok :
    (limits : HelloLimits) (w : Walk) (rest : List ℕ) (n : ℕ) (r : Round)
    → read_payload limits w rest n ≡ ok r
    → n ≤ length (drop record_header_len rest)
unfolding read_payload
read_payload-ok limits w rest n r h =
    let fits : ltb (length (take n (drop record_header_len rest))) n ≡ false = ground arith in
    omega (arith, ltb→le _ _ fits, length-take n (drop record_header_len rest))

-- A round that does not fail has found a whole record in front.
pub round-ok :
    (limits : HelloLimits) (w : Walk) (rest : List ℕ) (r : Round)
    → round limits w rest ≡ ok r
    → (f : Fragment) × (more : List ℕ) × (rest ≡ frame f ++ more) × IsFragment f
unfolding round
round-ok limits w [] r h = ground arith
round-ok limits w (a ∷ []) r h = ground arith
round-ok limits w (a ∷ b ∷ []) r h = ground arith
round-ok limits w (a ∷ b ∷ c ∷ []) r h = ground arith
round-ok limits w (a ∷ b ∷ c ∷ d ∷ []) r h = ground arith
round-ok limits w (a ∷ b ∷ c ∷ d ∷ e ∷ rest) r h =
    let full : ltb (length (a ∷ b ∷ c ∷ d ∷ e ∷ rest)) record_header_len ≡ false = ground arith in
    let (n, checked, read) =
      >>=-eq-ok (check_record_header (a ∷ b ∷ c ∷ d ∷ e ∷ []) (w.offset == 0)) _ (rw full at h) in
    let (kind, major, len, low_bound, high_bound) =
      check_record_header-ok a b c d e (w.offset == 0) n checked in
    let there = read_payload-ok limits w (a ∷ b ∷ c ∷ d ∷ e ∷ rest) n r read in
    let size : length (take n rest) ≡ n = length-take_le n rest there in
    (
      record { minor = c; high = d; low = e; payload = take n rest },
      drop n rest,
      rw (kind, major, take-append-drop n rest),
      record { tells = omega arith; some_bytes = omega arith; fits = omega arith },
    )
