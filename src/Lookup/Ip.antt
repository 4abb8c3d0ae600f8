-- ===== src/Lookup/Ip.antt =====
-- `str::parse::<IpAddr>` and `str::parse::<Ipv6Addr>` of the standard library.
pub mod Quad
use sni_router.Common.{
  ℕ, zero, suc, ◌+◌, ◌-◌, ◌*◌, Bool, true, false, ◌&&◌, List, [], ◌∷◌, ◌++◌, Option, none, some,
  length, ltb, leb, ◌==◌, if◌then◌else◌, replicate,
}
use sni_router.Common.Optional.{◌>>=◌, ◌>>◌, check}
use sni_router.Lookup.Text.{Str}

-- The octets, or the 16-bit segments.
pub data IpAddr : Type 0 where
  v4 v6 : List ℕ → IpAddr

pub record SocketAddr : Type 0 where
  pub ip : IpAddr
  pub port : ℕ

to_digit : ℕ → ℕ → Option ℕ
to_digit radix c =
    let d =
      if leb b'0' c && leb c b'9'
      then some (c - b'0')
      else if leb b'a' c && leb c b'z'
      then some (c - b'a' + 10)
      else if leb b'A' c && leb c b'Z'
      then some (c - b'A' + 10)
      else none in
    do n ← d; check (ltb n radix); some n

-- The digits at the front, at most `limit` of them: the value, their number, and the rest.
read_digits : ℕ → ℕ → ℕ → ℕ → Str → Option (ℕ × ℕ × Str)
unfolding to_digit
read_digits radix limit value count [] = some (value, count, [])
read_digits radix limit value count (c ∷ cs) = elim (to_digit radix c) [
  | none ↦ some (value, count, c ∷ cs)
  | some d ↦
      if ltb limit (count + 1)
      then none
      else read_digits radix limit (value * radix + d) (count + 1) cs
]

has_leading_zero : Str → Bool
has_leading_zero [] = false
has_leading_zero (c ∷ cs) = c == b'0'

read_number : ℕ → ℕ → Bool → ℕ → Str → Option (ℕ × Str)
unfolding read_digits has_leading_zero
read_number radix limit allow_zero_prefix bound s = do
  (value, count, rest) ← read_digits radix limit 0 0 s
  check (ltb 0 count)
  check (if allow_zero_prefix then true else if has_leading_zero s then leb count 1 else true)
  check (leb value bound)
  some (value, rest)

read_given_char : ℕ → Str → Option Str
read_given_char c [] = none
read_given_char c (x ∷ xs) = if x == c then some xs else none

-- `read_separator`: the separator stands in front of every part but the first.
read_separator : ℕ → ℕ → Str → Option Str
unfolding read_given_char
read_separator c zero s = some s
read_separator c (suc i) s = read_given_char c s

read_octets : ℕ → ℕ → Str → Option (List ℕ × Str)
unfolding read_number read_separator
read_octets zero i s = some ([], s)
read_octets (suc n) i s = do
  s1 ← read_separator b'.' i s
  (octet, s2) ← read_number 10 3 false 255 s1
  (octets, s3) ← read_octets n (i + 1) s2
  some (octet ∷ octets, s3)

read_ipv4_addr : Str → Option (List ℕ × Str)
unfolding read_octets
read_ipv4_addr s = read_octets 4 0 s

-- The two segments that four octets make.
segments_of : List ℕ → List ℕ
segments_of (a ∷ b ∷ c ∷ d ∷ []) = (a * 256 + b) ∷ (c * 256 + d) ∷ []
segments_of _ = []

record Groups : Type 0 where
  groups : List ℕ
  ipv4 : Bool
  rest : Str

-- An embedded IPv4 address needs room for two groups.
embedded_ipv4 : ℕ → ℕ → Str → Option (List ℕ × Str)
unfolding read_separator read_ipv4_addr
embedded_ipv4 zero i s = none
embedded_ipv4 (suc n) i s = do s1 ← read_separator b':' i s; read_ipv4_addr s1

read_group : ℕ → Str → Option (ℕ × Str)
unfolding read_separator read_number
read_group i s = do s1 ← read_separator b':' i s; read_number 16 4 true 65535 s1

read_groups : ℕ → ℕ → Str → Groups
unfolding embedded_ipv4 read_group segments_of
read_groups zero i s = record { groups = []; ipv4 = false; rest = s }
read_groups (suc n) i s = elim (embedded_ipv4 n i s) [
  | some (octets, s1) ↦ record { groups = segments_of octets; ipv4 = true; rest = s1 }
  | none ↦ elim (read_group i s) [
    | none ↦ record { groups = []; ipv4 = false; rest = s }
    | some (g, s1) ↦
        let more = read_groups n (i + 1) s1 in
        record { groups = g ∷ more.groups; ipv4 = more.ipv4; rest = more.rest }
  ]
]

read_ipv6_addr : Str → Option (List ℕ × Str)
unfolding read_groups read_given_char
read_ipv6_addr s =
    let head = read_groups 8 0 s in
    if length head.groups == 8 then some (head.groups, head.rest) else do
      check (if head.ipv4 then false else true)
      s1 ← read_given_char b':' head.rest
      s2 ← read_given_char b':' s1
      let tail = read_groups (8 - (length head.groups + 1)) 0 s2
      let gap = replicate (8 - length head.groups - length tail.groups) 0
      some (head.groups ++ gap ++ tail.groups, tail.rest)

-- The whole text must be read.
at_end : Option (List ℕ × Str) → Option (List ℕ)
at_end none = none
at_end (some (parts, [])) = some parts
at_end (some (parts, _)) = none

unfoldable pub parse_ipv6 : Str → Option IpAddr
unfolding read_ipv6_addr at_end
parse_ipv6 s = do parts ← at_end (read_ipv6_addr s); some (v6 parts)

finish : Option (List ℕ × Str) → Str → Option IpAddr
unfolding at_end parse_ipv6
finish (some (octets, rest)) s = do parts ← at_end (some (octets, rest)); some (v4 parts)
finish none s = parse_ipv6 s

unfoldable pub parse_ip : Str → Option IpAddr
unfolding finish read_ipv4_addr
parse_ip s = finish (read_ipv4_addr s) s
