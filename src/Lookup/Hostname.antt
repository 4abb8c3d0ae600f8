-- ===== src/Lookup/Hostname.antt =====
-- crates/sni_router/src/lookup/types.rs: `Hostname`.
pub mod Canonical
use sni_router.Common.{
  ℕ, ◌≡◌, refl, Bool, true, false, Option, none, some, Result, ok, err, ◌>>=◌, ◌>>◌, reject_if,
}
use sni_router.Lookup.Text.{Str, to_ascii_lowercase, split_once}
use sni_router.Lookup.Names.{NameError, ip_literal, validate_dns_name}
use sni_router.Lookup.Ip.{parse_ip}

pub record Hostname : Type 0 where
  pub text : Str

-- `option.is_some()`, and `result.is_ok()` of a parse.
abbrev pub is_some {ℓ} : {A : Type ℓ} → Option A → Bool
is_some none = false
is_some (some a) = true

unfoldable pub parse : Str → Result NameError Hostname
parse name = do
  let lowered = to_ascii_lowercase name
  validate_dns_name lowered
  reject_if (is_some (parse_ip lowered)) ip_literal
  ok (record { text = lowered })

unfoldable pub parent : Hostname → Option Str
parent host = elim (split_once b'.' host.text) [ none ↦ none | some (_, rest) ↦ some rest ]
