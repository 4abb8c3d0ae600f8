-- ===== src/Lookup/Names.antt =====
-- crates/sni_router/src/lookup/types.rs: why a name is refused, and the check on DNS names.
use sni_router.Common.{
  ℕ, Bool, ◌||◌, List, [], ◌∷◌, Result, ok, ◌>>◌, reject_if, length, ltb, ◌==◌, not,
}
use sni_router.Lookup.Text.{Str, all, split, is_ascii_lowercase, is_ascii_digit}

pub data NameError : Type 0 where
  empty too_long empty_label label_too_long invalid_character ip_literal : NameError
  invalid_wildcard missing_port invalid_port invalid_backend_host : NameError

abbrev pub max_name_len : ℕ
max_name_len = 253

abbrev pub max_label_len : ℕ
max_label_len = 63

unfoldable pub is_label_byte : ℕ → Bool
unfolding is_ascii_lowercase is_ascii_digit
is_label_byte b = is_ascii_lowercase b || is_ascii_digit b || b == b'-' || b == b'_'

-- The body of the loop of `validate_dns_name`.
unfoldable pub validate_label : Str → Result NameError (Unit {0})
unfolding is_label_byte all
validate_label label = do
  reject_if (length label == 0) empty_label
  reject_if (ltb max_label_len (length label)) label_too_long
  reject_if (not (all is_label_byte label)) invalid_character

unfoldable pub validate_labels : List Str → Result NameError (Unit {0})
unfolding validate_label
validate_labels [] = ok tt
validate_labels (label ∷ rest) = do validate_label label; validate_labels rest

unfoldable pub validate_dns_name : Str → Result NameError (Unit {0})
unfolding validate_labels split
validate_dns_name name = do
  reject_if (length name == 0) empty
  reject_if (ltb max_name_len (length name)) too_long
  validate_labels (split b'.' name)
