-- ===== src/Protocol/Record/Wire.antt =====
-- Handshake records as a sender writes them: each has a header and a payload.
use sni_router.Common.{
  ℕ, ◌+◌, ◌*◌, ◌≤◌, ◌<◌, ◌≡◌, refl, List, [], ◌∷◌, ◌++◌, some, ok, arith, length, length-append,
  append_assoc, append-nil, ap, ◌∙◌, sym,
}
use sni_router.Protocol.{HelloLimits, max_record_payload, handshake_header_len, record_header_len}
use sni_router.Protocol.Payloads.{Range}
use sni_router.Protocol.Header.Stream.{declared}

pub record Fragment : Type 0 where
  pub minor : ℕ
  pub high : ℕ
  pub low : ℕ
  pub payload : List ℕ

abbrev pub frame : Fragment → List ℕ
frame f = 0x16 ∷ 0x03 ∷ f.minor ∷ f.high ∷ f.low ∷ f.payload

abbrev pub wire : List Fragment → List ℕ
wire [] = []
wire (f ∷ fs) = frame f ++ wire fs

abbrev pub joined : List Fragment → List ℕ
joined [] = []
joined (f ∷ fs) = f.payload ++ joined fs

-- The length field tells the length of the payload, which is in range.
pub record IsFragment (f : Fragment) : Type 0 where
  pub tells : f.high * 256 + f.low ≡ length f.payload
  pub some_bytes : 1 ≤ length f.payload
  pub fits : length f.payload ≤ max_record_payload

abbrev pub AllFragments : List Fragment → Type 0
AllFragments [] = Unit
AllFragments (f ∷ fs) = IsFragment f × AllFragments fs

-- The last record is the first by which `need` bytes are there, `total` of them from before.
abbrev pub CompletesAt : ℕ → ℕ → List Fragment → Type 0
CompletesAt total need [] = ⊥
CompletesAt total need (f ∷ []) = need ≤ total + length f.payload
CompletesAt total need (f ∷ g ∷ fs) =
    (total + length f.payload < need) × CompletesAt (total + length f.payload) need (g ∷ fs)

-- Where the payloads lie when the records begin at `offset`.
abbrev pub ranges : ℕ → List Fragment → List Range
ranges offset [] = []
ranges offset (f ∷ fs) =
    record {
      start = offset + record_header_len;
      stop = offset + record_header_len + length f.payload;
    }
    ∷ ranges (offset + record_header_len + length f.payload) fs

-- The records hold a ClientHello of `n` body bytes, within the limits, and end with the record that
-- completes it.
pub record IsFraming (limits : HelloLimits) (n : ℕ) (fs : List Fragment) : Type 0 where
  pub fragments : AllFragments fs
  pub records : length fs ≤ limits.max_records
  pub declares : declared limits (joined fs) ≡ ok (some n)
  pub completes : CompletesAt 0 (handshake_header_len + n) fs

pub joined-append : (fs gs : List Fragment) → joined (fs ++ gs) ≡ joined fs ++ joined gs
joined-append [] gs = refl
joined-append (f ∷ fs) gs =
    ap (◌++◌ f.payload) (joined-append fs gs) ∙ sym (append_assoc f.payload (joined fs) (joined gs))

pub wire-append : (fs gs : List Fragment) → wire (fs ++ gs) ≡ wire fs ++ wire gs
wire-append [] gs = refl
wire-append (f ∷ fs) gs =
    ap (◌++◌ (frame f)) (wire-append fs gs) ∙ sym (append_assoc (frame f) (wire fs) (wire gs))

pub ranges-append :
    (offset : ℕ) (fs : List Fragment) (g : Fragment)
    → ranges offset (fs ++ g ∷ []) ≡ ranges offset fs ++ ranges (offset + length (wire fs)) (g ∷ [])
ranges-append offset [] g = let e : offset + 0 ≡ offset = omega arith in rw e
ranges-append offset (f ∷ fs) g =
    let e : offset + record_header_len + length f.payload + length (wire fs)
        ≡ offset + length (wire (f ∷ fs)) =
      omega (arith, length-append (frame f) (wire fs)) in
    rw (ranges-append (offset + record_header_len + length f.payload) fs g) (rw e)

pub append-wire_snoc :
    (seen : List Fragment) (f : Fragment) (rest : List ℕ)
    → wire seen ++ (frame f ++ rest) ≡ wire (seen ++ f ∷ []) ++ rest
append-wire_snoc seen f rest =
    rw (wire-append seen (f ∷ []), append-nil f.payload, append_assoc (wire seen) (frame f) rest)
