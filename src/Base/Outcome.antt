-- ===== src/Base/Outcome.antt =====
-- The result of code that may throw. Undefined behaviour is a fault of its own.
use mathlib.Core.Path.{◌≡◌, refl}

-- `std::out_of_range`, `std::logic_error` of a bad 7-bit integer, `std::length_error` and
-- `std::bad_alloc`; `invalid` is an access outside of the memory that the object owns.
pub data Error : Type 0 where
  out_of_range bad_format length_error bad_alloc invalid : Error

pub data Outcome {ℓ} (A : Type ℓ) : Type ℓ where
  ok : A → Outcome A
  err : Error → Outcome A

-- The rest of the code runs on the result, unless something was thrown.
infixl 5 ◌>>=◌
abbrev pub ◌>>=◌ {ℓ κ} : {A : Type ℓ} {B : Type κ} → Outcome A → (A → Outcome B) → Outcome B
err e >>= next = err e
ok result >>= next = next result

-- What returned after a bind returned before it.
pub >>=-eq-ok {ℓ κ} :
    {A : Type ℓ} {B : Type κ} (first : Outcome A) (next : A → Outcome B) {last : B}
    → (first >>= next) ≡ ok last
    → (a : A) × (first ≡ ok a) × (next a ≡ ok last)
>>=-eq-ok (err e) next h = cc
>>=-eq-ok (ok a) next h = (a, refl, h)
