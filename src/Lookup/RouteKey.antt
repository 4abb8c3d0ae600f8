-- ===== src/Lookup/RouteKey.antt =====
-- crates/sni_router/src/lookup/types.rs: `RouteKey`.
pub mod Wildcard
use sni_router.Common.{
  ℕ, ◌≡◌, refl, Bool, true, false, ◌&&◌, List, [], ◌∷◌, ◌++◌, Option, none, some, Result, ok, err,
  ◌>>=◌, ◌>>◌, map_err, reject_if, if◌then◌else◌, not, ◌↔◌, arith,
}
use sni_router.Lookup.Text.{Str, to_ascii_lowercase, contains, strip_prefix, str_eq, str_eq_iff}
use sni_router.Lookup.Names.{NameError, invalid_character, invalid_wildcard}
use sni_router.Lookup.Hostname
use sni_router.Lookup.Hostname.{Hostname}

-- "*."
abbrev pub wildcard_prefix : Str
wildcard_prefix = b'*' ∷ b'.' ∷ []

pub record RouteKey : Type 0 where
  pub text : Str
  pub wildcard : Bool

abbrev wildcard_error : NameError → NameError
wildcard_error invalid_character = invalid_wildcard
wildcard_error other = other

unfoldable pub exact : Hostname → RouteKey
exact host = record { text = host.text; wildcard = false }

-- The branch of `parse` on a key behind the wildcard prefix.
unfoldable pub parse_wildcard : Str → Str → Result NameError RouteKey
parse_wildcard lowered rest = do
  host ← map_err (Hostname.parse rest) wildcard_error
  reject_if (not (contains b'.' host.text)) invalid_wildcard
  ok (record { text = lowered; wildcard = true })

unfoldable pub parse_exact : Str → Result NameError RouteKey
unfolding exact
parse_exact lowered = do
  reject_if (contains b'*' lowered) invalid_wildcard
  host ← Hostname.parse lowered
  ok (exact host)

unfoldable pub parse : Str → Result NameError RouteKey
unfolding parse_wildcard parse_exact
parse key =
    let lowered = to_ascii_lowercase key in
    elim (strip_prefix wildcard_prefix lowered) [
      | some rest ↦ parse_wildcard lowered rest
      | none ↦ parse_exact lowered
    ]

abbrev wildcard_key : Option Str → Option RouteKey
wildcard_key none = none
wildcard_key (some parent) =
    if not (contains b'.' parent)
    then none
    else some (record { text = wildcard_prefix ++ parent; wildcard = true })

unfoldable pub wildcard_for : Hostname → Option RouteKey
wildcard_for host = wildcard_key (Hostname.parent host)

abbrev bool_eq : Bool → Bool → Bool
bool_eq true b = b
bool_eq false b = not b

-- `a == b` on keys.
unfoldable pub key_eq : RouteKey → RouteKey → Bool
key_eq a b = str_eq a.text b.text && bool_eq a.wildcard b.wildcard

pub key_eq_iff : (a b : RouteKey) → (key_eq a b ≡ true) ↔ (a ≡ b)
unfolding key_eq
key_eq_iff a b = (
  λ h. ground (arith, (str_eq_iff a.text b.text).0),
  λ h. ground (arith, (str_eq_iff a.text b.text).1),
)
