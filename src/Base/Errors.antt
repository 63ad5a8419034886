-- ===== src/Base/Errors.antt =====
-- A call that returns or raises. The error type is the component's own.
use mathlib.Core.Path.{◌≡◌, refl}
use mathlib.Core.Bool.{Bool, true, false}
use mathlib.Core.List.{List, [], ◌∷◌}
use pulse_data_platform.Base.Tests.{if◌then◌else◌}
use pulse_data_platform.Base.Lists.{All}

pub data Outcome {ℓ κ} (E : Type ℓ) (A : Type κ) : Type (ℓ ⊔ κ) where
  ok : A → Outcome E A
  err : E → Outcome E A

infixl 5 ◌>>=◌
abbrev pub ◌>>=◌ {ℓ κ μ} :
    {E : Type ℓ} {A : Type κ} {B : Type μ} → Outcome E A → (A → Outcome E B) → Outcome E B
err reason >>= rest = err reason
ok value >>= rest = rest value

-- A chain that returns has run its first step to the end.
pub >>=-eq-ok {ℓ κ μ} :
    {E : Type ℓ} {A : Type κ} {B : Type μ} (first : Outcome E A) (rest : A → Outcome E B)
    {final : B}
    → (first >>= rest) ≡ ok final
    → (value : A) × (first ≡ ok value) × (rest value ≡ ok final)
>>=-eq-ok (err reason) rest chain = absurd (cc)
>>=-eq-ok (ok value) rest chain = (value, refl, chain)

-- A row of `if …: raise …`, then the value.
abbrev pub run_checks {ℓ κ} : {E : Type ℓ} {A : Type κ} → List (Bool × E) → A → Outcome E A
run_checks [] value = ok value
run_checks ((failed, reason) ∷ checks) value =
    let rest = run_checks checks value in if failed then err reason else rest

-- If the value is returned, no test failed.
pub run_checks-eq-ok {ℓ κ} :
    {E : Type ℓ} {A : Type κ} (checks : List (Bool × E)) (value result : A)
    → run_checks checks value ≡ ok result
    → (value ≡ result) × All (λ (c : Bool × E). c.0 ≡ false) checks
run_checks-eq-ok [] value result h = (cc, tt)
run_checks-eq-ok ((true, reason) ∷ checks) value result h = absurd (cc)
run_checks-eq-ok ((false, reason) ∷ checks) value result h =
    let rest = run_checks-eq-ok checks value result h in (rest.0, (refl, rest.1))

abbrev pub checked {ℓ} : {E : Type ℓ} → List (Bool × E) → Outcome E (Unit {0})
checked checks = run_checks checks tt

infixl 5 ◌>>◌
abbrev pub ◌>>◌ {ℓ κ μ} :
    {E : Type ℓ} {A : Type κ} {B : Type μ} → Outcome E A → Outcome E B → Outcome E B
first >> rest = first >>= λ _. rest

-- The same, for what is concluded from the parts.
pub >>=-elim_ok {ℓ κ μ ν} :
    {E : Type ℓ} {A : Type κ} {B : Type μ} {P : Type ν} (first : Outcome E A)
    (rest : A → Outcome E B) {final : B}
    → (first >>= rest) ≡ ok final
    → ((value : A) → first ≡ ok value → rest value ≡ ok final → P)
    → P
>>=-elim_ok (err reason) rest chain goal = absurd (cc)
>>=-elim_ok (ok value) rest chain goal = goal value refl chain
