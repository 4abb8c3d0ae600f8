-- ===== src/Lookup/Backend.antt =====
-- crates/sni_router/src/lookup/types.rs: `Backend`.
use sni_router.Common.{
  ℕ, ◌+◌, ◌-◌, ◌*◌, [], ◌∷◌, Option, none, some, Result, ok, ◌>>=◌, ◌>>◌, ok_or, map_err, reject_if,
  ltb, ◌==◌, if◌then◌else◌, not,
}
use sni_router.Lookup.Text.{
  Str, to_ascii_lowercase, contains, split_once, rsplit_once, strip_prefix, is_ascii_digit,
}
use sni_router.Lookup.Names.{
  NameError, missing_port, invalid_port, invalid_backend_host, validate_dns_name,
}
use sni_router.Lookup.Ip.{IpAddr, parse_ip, parse_ipv6}

pub data BackendHost : Type 0 where
  ip : IpAddr → BackendHost
  dns : Str → BackendHost

pub record Backend : Type 0 where
  pub host : BackendHost
  pub port : ℕ

abbrev u16_max : ℕ
u16_max = 65535

unfoldable pub read_u16 : ℕ → Str → Option ℕ
unfolding is_ascii_digit
read_u16 value [] = some value
read_u16 value (c ∷ cs) =
    let value' = value * 10 + (c - b'0') in
    if not (is_ascii_digit c) then none else if ltb u16_max value' then none else read_u16 value' cs

-- `port.parse::<u16>()`: a leading plus sign is accepted, an empty text is not.
unfoldable pub parse_u16 : Str → Option ℕ
unfolding read_u16
parse_u16 [] = none
parse_u16 (c ∷ []) = if c == b'+' then none else read_u16 0 (c ∷ [])
parse_u16 (c ∷ d ∷ cs) = read_u16 0 (if c == b'+' then d ∷ cs else c ∷ d ∷ cs)

-- `NonZeroU16::new`.
abbrev non_zero : Option ℕ → Option ℕ
non_zero none = none
non_zero (some n) = if n == 0 then none else some n

unfoldable pub split_bracketed : Str → Result NameError (Str × Str)
split_bracketed rest = do
  (host, after) ← ok_or (split_once b']' rest) invalid_backend_host
  port ← ok_or (strip_prefix (b':' ∷ []) after) missing_port
  _ ← ok_or (parse_ipv6 host) invalid_backend_host
  ok (host, port)

unfoldable pub split_plain : Str → Result NameError (Str × Str)
split_plain value = do
  (host, port) ← ok_or (rsplit_once b':' value) missing_port
  reject_if (contains b':' host) invalid_backend_host
  ok (host, port)

unfoldable pub split_host_port : Str → Result NameError (Str × Str)
unfolding split_bracketed split_plain
split_host_port value = elim (strip_prefix (b'[' ∷ []) value) [
  | some rest ↦ split_bracketed rest
  | none ↦ split_plain value
]

abbrev dns_host : Str → Result NameError BackendHost
dns_host lowered = do
  map_err (validate_dns_name lowered) (λ _. invalid_backend_host)
  ok (dns lowered)

unfoldable pub parse_backend_host : Str → Result NameError BackendHost
parse_backend_host host = elim (parse_ip host) [
  | some address ↦ ok (ip address)
  | none ↦ dns_host (to_ascii_lowercase host)
]

unfoldable pub from_str : Str → Result NameError Backend
unfolding split_host_port parse_u16 parse_backend_host
from_str value = do
  (host, port) ← split_host_port value
  port' ← ok_or (non_zero (parse_u16 port)) invalid_port
  host' ← parse_backend_host host
  ok (record { host = host'; port = port' })
