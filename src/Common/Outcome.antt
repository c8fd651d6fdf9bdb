-- ===== src/Common/Outcome.antt =====
-- How a C++ call can end, as a value. `out_of_range` is the exception of that name.
-- `undefined` stands for undefined behaviour, such as a null pointer that is followed.
-- `assert_failed` is a CIVAN_ASSERT that does not hold.
use mathlib.Core.Path.{◌≡◌, refl}

pub data Outcome {ℓ} (A : Type ℓ) : Type ℓ where
  ok : A → Outcome A
  out_of_range : Outcome A
  undefined : Outcome A
  assert_failed : Outcome A

infixl 5 ◌>>=◌
abbrev pub ◌>>=◌ {ℓ κ} : {A : Type ℓ} {B : Type κ} → Outcome A → (A → Outcome B) → Outcome B
ok a >>= f = f a
out_of_range >>= f = out_of_range
undefined >>= f = undefined
assert_failed >>= f = assert_failed

-- What a chain that returned has gone through.
pub >>=-eq-ok {ℓ κ} :
    {A : Type ℓ} {B : Type κ} {end : B} (call : Outcome A) (next : A → Outcome B)
    → (call >>= next) ≡ ok end
    → (x : A) × (call ≡ ok x) × (next x ≡ ok end)
>>=-eq-ok (ok x) next e = (x, refl, e)
>>=-eq-ok out_of_range next e = cc
>>=-eq-ok undefined next e = cc
>>=-eq-ok assert_failed next e = cc
