-- ===== src/Lookup/Ip/Quad.antt =====
-- `str::parse::<IpAddr>` of the standard library: texts that write an IPv4 address are read as one.
use sni_router.Common.{
  ℕ, ◌+◌, ◌*◌, ◌≤◌, ◌≡◌, refl, ap, ◌∙◌, true, false, List, [], ◌∷◌, ◌++◌, some, arith, leb, ltb,
  if◌then◌else◌, append-nil,
}
use sni_router.Lookup.Text.{Str}
use sni_router.Lookup.Ip.{
  v4, parse_ip, to_digit, read_digits, read_number, has_leading_zero, read_octets, read_separator,
  read_given_char, read_ipv4_addr, finish, at_end,
}

-- The decimal digits of a number of at most 255, without a zero in front.
pub data IsOctet : Str → Type 0 where
  one : (a : ℕ) → a ≤ 9 → IsOctet ((48 + a) ∷ [])
  two : (a b : ℕ) → 1 ≤ a → a ≤ 9 → b ≤ 9 → IsOctet ((48 + a) ∷ (48 + b) ∷ [])
  three :
      (a b c : ℕ)
      → 1 ≤ a
      → a ≤ 2
      → b ≤ 9
      → c ≤ 9
      → a * 100 + b * 10 + c ≤ 255
      → IsOctet ((48 + a) ∷ (48 + b) ∷ (48 + c) ∷ [])

-- Four such numbers with dots between them.
pub record IsQuad (s : Str) : Type 0 where
  pub first : Str
  pub second : Str
  pub third : Str
  pub fourth : Str
  pub octets : IsOctet first × IsOctet second × IsOctet third × IsOctet fourth
  pub quad : s ≡ first ++ 46 ∷ (second ++ 46 ∷ (third ++ 46 ∷ fourth))

to_digit-digit : (a : ℕ) → a ≤ 9 → to_digit 10 (48 + a) ≡ some a
unfolding to_digit
to_digit-digit a h = ground (arith, h)

read_digits-digit :
    (a value count : ℕ) (s : Str)
    → a ≤ 9
    → count + 1 ≤ 3
    → read_digits 10 3 value count ((48 + a) ∷ s) ≡ read_digits 10 3 (value * 10 + a) (count + 1) s
unfolding read_digits
read_digits-digit a value count s h few =
    let room : ltb 3 (count + 1) ≡ false = ground (arith, few) in
    rw (read_digits, to_digit-digit a h, room) refl

-- What follows a number: the end, or a dot.
abbrev Stops : Str → Type 0
Stops rest = (value count : ℕ) → read_digits 10 3 value count rest ≡ some (value, count, rest)

dot-Stops : (s : Str) → Stops (46 ∷ s)
unfolding read_digits to_digit
dot-Stops s value count = refl

end-Stops : Stops []
unfolding read_digits
end-Stops value count = refl

-- The checks behind the digits.
accept :
    (s rest : Str) (value count : ℕ)
    → read_digits 10 3 0 0 s ≡ some (value, count, rest)
    → 1 ≤ count
    → (if has_leading_zero s then leb count 1 else true) ≡ true
    → value ≤ 255
    → read_number 10 3 false 255 s ≡ some (value, rest)
unfolding read_number
accept s rest value count h some_digit no_zero small =
    let counted : ltb 0 count ≡ true = ground (arith, some_digit) in
    let bounded : leb value 255 ≡ true = ground (arith, small) in
    rw (read_number, h, counted, no_zero, bounded) refl

read_number-octet :
    (o rest : Str)
    → IsOctet o
    → Stops rest
    → (n : ℕ) × (read_number 10 3 false 255 (o ++ rest) ≡ some (n, rest))
unfolding has_leading_zero
read_number-octet _ rest (one a ha) stops = (
  0 * 10 + a,
  accept ((48 + a) ∷ rest) rest (0 * 10 + a) 1
      (read_digits-digit a 0 0 rest ha (omega arith) ∙ stops _ _) (omega arith) (ground arith)
      (omega (arith, ha)),
)
read_number-octet _ rest (two a b nonzero ha hb) stops = (
  (0 * 10 + a) * 10 + b,
  accept ((48 + a) ∷ (48 + b) ∷ rest) rest ((0 * 10 + a) * 10 + b) 2
      (read_digits-digit a 0 0 _ ha (omega arith)
        ∙ read_digits-digit b (0 * 10 + a) 1 rest hb (omega arith)
        ∙ stops _ _)
      (omega arith) (ground (arith, nonzero)) (omega (arith, ha, hb)),
)
read_number-octet _ rest (three a b c nonzero ha hb hc small) stops = (
  ((0 * 10 + a) * 10 + b) * 10 + c,
  accept ((48 + a) ∷ (48 + b) ∷ (48 + c) ∷ rest) rest (((0 * 10 + a) * 10 + b) * 10 + c) 3
      (read_digits-digit a 0 0 _ (omega (arith, ha)) (omega arith)
        ∙ read_digits-digit b (0 * 10 + a) 1 _ hb (omega arith)
        ∙ read_digits-digit c ((0 * 10 + a) * 10 + b) 2 rest hc (omega arith)
        ∙ stops _ _)
      (omega arith) (ground (arith, nonzero)) (omega (arith, small)),
)

read_ipv4_addr-quad :
    (a b c d : Str)
    → IsOctet a
    → IsOctet b
    → IsOctet c
    → IsOctet d
    → (octets : List ℕ) × (read_ipv4_addr (a ++ 46 ∷ (b ++ 46 ∷ (c ++ 46 ∷ (d ++ []))))
        ≡ some (octets, []))
unfolding read_ipv4_addr read_octets read_separator read_given_char
read_ipv4_addr-quad a b c d oa ob oc od =
    let (na, ra) = read_number-octet a (46 ∷ (b ++ 46 ∷ (c ++ 46 ∷ (d ++ [])))) oa (dot-Stops _) in
    let (nb, rb) = read_number-octet b (46 ∷ (c ++ 46 ∷ (d ++ []))) ob (dot-Stops _) in
    let (nc, rc) = read_number-octet c (46 ∷ (d ++ [])) oc (dot-Stops _) in
    let (nd, rd) = read_number-octet d [] od end-Stops in
    (na ∷ nb ∷ nc ∷ nd ∷ [], rw (read_ipv4_addr, read_octets, ra, rb, rc, rd) refl)

pub parse_ip-IsQuad : (s : Str) → IsQuad s → (octets : List ℕ) × (parse_ip s ≡ some (v4 octets))
unfolding parse_ip finish at_end
parse_ip-IsQuad s q =
    let (o1, o2, o3, o4) = q.octets in
    let (octets, read) = read_ipv4_addr-quad q.first q.second q.third q.fourth o1 o2 o3 o4 in
    let text : s ≡ q.first ++ 46 ∷ (q.second ++ 46 ∷ (q.third ++ 46 ∷ (q.fourth ++ []))) =
      rw (append-nil q.fourth, q.quad) in
    let whole : read_ipv4_addr s ≡ some (octets, []) = ap read_ipv4_addr text ∙ read in
    (octets, rw (parse_ip, whole) refl)
