-- ===== src/Base/Results.antt =====
-- A Go result `(A, error)`: a value or an error of type `E`.
use mathlib.Core.Path.{◌≡◌, refl}
use mathlib.Core.Bool.{Bool, true, false}

pub data Result {ℓ κ} (E : Type ℓ) (A : Type κ) : Type (ℓ ⊔ κ) where
  ok : A → Result E A
  err : E → Result E A

-- `if !cond { return err }`, as a step of a do block.
abbrev pub guard {ℓ} : {E : Type ℓ} → Bool → E → Result E (Unit {0})
guard false problem = err problem
guard true problem = ok tt

-- `if err != nil { return err }` behind a call.
infixl 5 ◌>>=◌ ◌>>◌
abbrev pub ◌>>=◌ {ℓ κ μ} :
    {E : Type ℓ} {A : Type κ} {B : Type μ} → Result E A → (A → Result E B) → Result E B
err problem >>= next = err problem
ok value >>= next = next value

abbrev pub ◌>>◌ {ℓ κ} : {E : Type ℓ} {B : Type κ} → Result E (Unit {0}) → Result E B → Result E B
step >> next = step >>= λ done. next

-- What a call that came to an end has computed on its way.
pub >>=-eq-ok {ℓ κ μ} :
    {E : Type ℓ} {A : Type κ} {B : Type μ} (step : Result E A) (next : A → Result E B) {b : B}
    → (step >>= next) ≡ ok b
    → (value : A) × (step ≡ ok value) × (next value ≡ ok b)
>>=-eq-ok (err problem) next h = cc
>>=-eq-ok (ok value) next h = (value, refl, h)

pub guard-eq-ok {ℓ} : {E : Type ℓ} (b : Bool) (e : E) {u : Unit {0}} → guard b e ≡ ok u → b ≡ true
guard-eq-ok true e h = refl
guard-eq-ok false e h = cc

pub guard->>-eq-ok {ℓ κ} :
    {E : Type ℓ} {B : Type κ} (t : Bool) (e : E) (m : Result E B) {b : B}
    → (guard t e >> m) ≡ ok b
    → (t ≡ true) × (m ≡ ok b)
guard->>-eq-ok true e m h = (refl, h)
guard->>-eq-ok false e m h = cc
