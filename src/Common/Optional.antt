-- ===== src/Common/Optional.antt =====
-- `?` on `Option`, as a `do` block.
use mathlib.Core.Option.{Option, none, some}
use mathlib.Core.Bool.{Bool, true, false}

infixl 5 ◌>>◌ ◌>>=◌
abbrev pub ◌>>=◌ {ℓ κ} :
    {In : Type ℓ} {Out : Type κ} (first : Option In) → (next : In → Option Out) → Option Out
none >>= next = none
(some found) >>= next = next found

abbrev pub ◌>>◌ {ℓ} : {Out : Type ℓ} (first : Option (Unit {0})) → (rest : Option Out) → Option Out
first >> rest = first >>= λ _. rest

-- `filter`: a test that must pass.
abbrev pub check : Bool → Option (Unit {0})
check true = some tt
check false = none

-- `first.or_else(|| second)`.
abbrev pub or_else {ℓ} : {A : Type ℓ} → Option A → Option A → Option A
or_else (some a) b = some a
or_else none b = b
