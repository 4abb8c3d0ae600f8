-- ===== src/Common/Outcome.antt =====
-- `Result` of Rust, with `?` as a `do` block.
use mathlib.Core.Path.{◌≡◌, refl}
use mathlib.Core.Logic.{◌⊎◌, inl, inr}
use mathlib.Core.Bool.{Bool, true, false}
use mathlib.Core.Option.{Option, none, some}

pub data Result {ℓ} (Failure : Type 0) (Value : Type ℓ) : Type ℓ where
  ok : Value → Result Failure Value
  err : Failure → Result Failure Value

-- `if refused { return Err(error); }`.
abbrev pub reject_if : {E : Type 0} → (refused : Bool) → (error : E) → Result E (Unit {0})
reject_if false error = ok tt
reject_if true error = err error

infixl 5 ◌>>=◌ ◌>>◌
abbrev pub ◌>>=◌ {ℓ κ} :
    {E : Type 0} {A : Type ℓ} {B : Type κ} (first : Result E A)
    → (next : A → Result E B) → Result E B
(err error) >>= next = err error
(ok value) >>= next = next value

-- `option.ok_or(error)`.
abbrev pub ok_or {ℓ} : {E : Type 0} {A : Type ℓ} → Option A → E → Result E A
ok_or none e = err e
ok_or (some a) e = ok a

-- `result.map_err(f)`.
abbrev pub map_err {ℓ} : {E F : Type 0} {A : Type ℓ} → Result E A → (E → F) → Result F A
map_err (ok a) f = ok a
map_err (err e) f = err (f e)

-- A step without a value of its own.
abbrev pub ◌>>◌ {ℓ} :
    {E : Type 0} {B : Type ℓ} (first : Result E (Unit {0})) → (rest : Result E B) → Result E B
first >> rest = first >>= λ _. rest

pub Result-cases {ℓ} :
    {E : Type 0} {A : Type ℓ} (r : Result E A) → ((a : A) × (r ≡ ok a)) ⊎ ((e : E) × (r ≡ err e))
Result-cases (ok a) = inl (a, refl)
Result-cases (err e) = inr (e, refl)

-- Inversion of a successful bind.
pub >>=-eq-ok {ℓ κ} :
    {E : Type 0} {A : Type ℓ} {B : Type κ} (first : Result E A) (next : A → Result E B) {end : B}
    → (first >>= next) ≡ ok end
    → (value : A) × (first ≡ ok value) × (next value ≡ ok end)
>>=-eq-ok (err error) next both = cc
>>=-eq-ok (ok value) next both = (value, refl, both)
