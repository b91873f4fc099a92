-- ===== src/Common/Outcome.antt =====
-- Rust's `Result<A, E>`, with `?` as `do`.
use mathlib.Core.Path.{◌≡◌, refl}
use mathlib.Core.Logic.{◌⊎◌, inl, inr}
use mathlib.Core.Bool.{Bool, true, false}
use mathlib.Core.Option.{Option, none, some}

pub data Result {ℓ κ} (A : Type ℓ) (E : Type κ) : Type (ℓ ⊔ κ) where
  ok : A → Result A E
  err : E → Result A E

infixl 5 ◌>>=◌ ◌>>◌
abbrev pub ◌>>=◌ {ℓ κ ι} :
    {A : Type ℓ} {B : Type κ} {E : Type ι} → Result A E → (A → Result B E) → Result B E
ok a >>= f = f a
err e >>= f = err e

abbrev pub ◌>>◌ {ℓ ι} : {B : Type ℓ} {E : Type ι} → Result (Unit {0}) E → Result B E → Result B E
m >> k = m >>= λ _. k

-- `if refused { return Err(e) }`
abbrev pub reject_if {ι} : {E : Type ι} → Bool → E → Result (Unit {0}) E
reject_if true e = err e
reject_if false e = ok tt

-- `Option::ok_or`
abbrev pub ok_or {ℓ ι} : {A : Type ℓ} {E : Type ι} → Option A → E → Result A E
ok_or none e = err e
ok_or (some a) e = ok a

abbrev pub is_ok {ℓ ι} : {A : Type ℓ} {E : Type ι} → Result A E → Bool
is_ok (ok a) = true
is_ok (err e) = false

-- `Result::map_err`
abbrev pub map_err {ℓ ι κ} :
    {A : Type ℓ} {E : Type ι} {F : Type κ} → Result A E → (E → F) → Result A F
map_err (ok a) f = ok a
map_err (err e) f = err (f e)

-- A chain that succeeds did so by its first step and then by the rest.
module _ {ℓ κ ι} {A : Type ℓ} {B : Type κ} {E : Type ι} (f : A → Result B E) where
  pub bind-ok_parts :
      (first : Result A E) {last : B}
      → (first >>= f) ≡ ok last
      → (a : A) × (f a ≡ ok last) × (first ≡ ok a)
  bind-ok_parts (err reason) e = cc
  bind-ok_parts (ok a) e = (a, e, refl)

-- `Result::err`
abbrev pub err_of {ℓ ι} : {A : Type ℓ} {E : Type ι} → Result A E → Option E
err_of (ok a) = none
err_of (err e) = some e

pub Result-cases {ℓ ι} :
    {A : Type ℓ} {E : Type ι} (r : Result A E) → ((a : A) × (r ≡ ok a)) ⊎ ((e : E) × (r ≡ err e))
Result-cases (ok a) = inl (a, refl)
Result-cases (err e) = inr (e, refl)
