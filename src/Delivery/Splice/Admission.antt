-- ===== src/Delivery/Splice/Admission.antt =====
-- crates/sni_router/src/delivery/splice.rs: how many connections may use pipes at once.
pub mod Budget
use sni_router.Common.{
  ℕ, ◌+◌, ◌-◌, ◌*◌, ◌/◌, ◌^◌, Bool, true, false, [], ◌∷◌, Option, none, some, ltb, ◌==◌, not,
  if◌then◌else◌,
}
use sni_router.Lookup.Text.{Str, is_ascii_digit}

abbrev pub max_splice_fd_share : ℕ
max_splice_fd_share = 2

abbrev pub fds_per_splice_connection : ℕ
fds_per_splice_connection = 4

abbrev usize_max : ℕ
usize_max = 2 ^ 64 - 1

read_usize : ℕ → Str → Option ℕ
read_usize value [] = some value
read_usize value (c ∷ cs) =
    let value' = value * 10 + (c - b'0') in
    let rest = read_usize value' cs in
    if not (is_ascii_digit c) then none else if ltb usize_max value' then none else rest

-- `value.parse::<usize>().ok()`: a leading plus sign is accepted, an empty text is not.
unfoldable pub parse_usize : Str → Option ℕ
unfolding read_usize
parse_usize [] = none
parse_usize (c ∷ []) = if c == b'+' then none else read_usize 0 (c ∷ [])
parse_usize (c ∷ d ∷ cs) = read_usize 0 (if c == b'+' then d ∷ cs else c ∷ d ∷ cs)

unfoldable pub splice_permits : ℕ → ℕ
splice_permits nofile_limit = nofile_limit / max_splice_fd_share / fds_per_splice_connection

abbrev parsed : Option Str → Option ℕ
parsed none = none
parsed (some value) = parse_usize value

unfoldable pub admission_capacity : Option Str → ℕ → ℕ
unfolding splice_permits parse_usize
admission_capacity override_value nofile_limit = elim (parsed override_value) [
  | some permits ↦ permits
  | none ↦ splice_permits nofile_limit
]

-- The permits of the semaphore that are free.
pub record Admission : Type 0 where
  pub permits : ℕ

-- The limit is nothing when the system does not tell it.
unfoldable pub new : Option Str → Option ℕ → Admission
unfolding admission_capacity
new override_value limit = record {
  permits = admission_capacity override_value (elim limit [ none ↦ 0 | some n ↦ n ]);
}

-- The Boolean says whether a permit was handed out.
unfoldable pub try_acquire : Admission → Admission × Bool
try_acquire admission =
    if admission.permits == 0
    then (admission, false)
    else (record { permits = admission.permits - 1 }, true)

-- `Drop` of a permit.
unfoldable pub release : Admission → Admission
release admission = record { permits = admission.permits + 1 }
