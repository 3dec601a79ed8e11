-- ===== src/Common/Results.antt =====
-- The outcome of a C function. `fail` is a returned -1; `fault` is an access outside a buffer,
-- which the C standard leaves undefined; `stuck` is a loop of the model that ran out of fuel.

use mathlib.Core.Path.{◌≡◌, refl}

pub data Outcome {ℓ} (A : Type ℓ) : Type ℓ where
  ok : A → Outcome A
  fail : Outcome A
  fault : Outcome A
  stuck : Outcome A

-- The code after a call runs on what the call gives.
abbrev pub and_then {ℓ κ} : {A : Type ℓ} {B : Type κ} → (A → Outcome B) → Outcome A → Outcome B
and_then next stuck = stuck
and_then next fault = fault
and_then next fail = fail
and_then next (ok result) = next result

infixl 5 ◌>>=◌
abbrev pub ◌>>=◌ {ℓ κ} : {A : Type ℓ} → {B : Type κ} → Outcome A → (A → Outcome B) → Outcome B
call >>= next = and_then next call

-- The C function returned, with a result or with -1.
abbrev pub Returns {ℓ} : {A : Type ℓ} → Outcome A → Type 0
Returns (ok a) = Unit {0}
Returns fail = Unit {0}
Returns fault = ⊥
Returns stuck = ⊥

-- What a sequence that succeeds has gone through.
pub >>=-eq-ok {ℓ κ} :
    {A : Type ℓ} {B : Type κ} (call : Outcome A) (next : A → Outcome B) (result : B)
    → (call >>= next) ≡ ok result
    → (a : A) × (call ≡ ok a) × (next a ≡ ok result)
>>=-eq-ok (ok a) next result e = (a, refl, e)
>>=-eq-ok fail next result e = cc
>>=-eq-ok fault next result e = cc
>>=-eq-ok stuck next result e = cc
