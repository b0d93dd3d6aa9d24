-- ===== src/Prelude/Outcomes.antt =====
-- The outcome of a Go call: it returns, it panics at run time (a slice out of range, a write to a
-- nil map), or the loop that models it has used up its fuel.
use mathlib.Core.Path.{◌≡◌, refl}
use mathlib.Core.Logic.{◌≢◌}

pub data Outcome {ℓ} (A : Type ℓ) : Type ℓ where
  ok : A → Outcome A
  panic : Outcome A
  stuck : Outcome A

infixl 5 ◌>>=◌
abbrev pub ◌>>=◌ {ℓ κ} : {A : Type ℓ} {B : Type κ} → Outcome A → (A → Outcome B) → Outcome B
ok a >>= f = f a
panic >>= f = panic
stuck >>= f = stuck

-- A bind does not run out of fuel if neither part does.
pub >>=-ne-stuck {ℓ κ} :
    {A : Type ℓ} {B : Type κ} (m : Outcome A) (f : A → Outcome B)
    → m ≢ stuck
    → ((a : A) → m ≡ ok a → f a ≢ stuck)
    → (m >>= f) ≢ stuck
>>=-ne-stuck (ok a) f h k = k a refl
>>=-ne-stuck panic f h k = λ e. cc
>>=-ne-stuck stuck f h k = absurd (h refl)

-- Nor does it panic if neither part does.
pub >>=-ne-panic {ℓ κ} :
    {A : Type ℓ} {B : Type κ} (m : Outcome A) (f : A → Outcome B)
    → m ≢ panic
    → ((a : A) → m ≡ ok a → f a ≢ panic)
    → (m >>= f) ≢ panic
>>=-ne-panic (ok a) f h k = k a refl
>>=-ne-panic panic f h k = absurd (h refl)
>>=-ne-panic stuck f h k = λ e. cc

-- A call that neither panics nor runs out of fuel returns.
pub Outcome-ok {ℓ} : {A : Type ℓ} (m : Outcome A) → m ≢ panic → m ≢ stuck → (a : A) × (m ≡ ok a)
Outcome-ok (ok a) h k = (a, refl)
Outcome-ok panic h k = absurd (h refl)
Outcome-ok stuck h k = absurd (k refl)

-- The call returns, and what it returns has the property.
abbrev pub Gives {ℓ} : {A : Type ℓ} → (A → Type 0) → Outcome A → Type 0
Gives P (ok a) = P a
Gives P panic = ⊥
Gives P stuck = ⊥

pub >>=-Gives {ℓ κ} :
    {A : Type ℓ} {B : Type κ} (P : A → Type 0) (Q : B → Type 0) (m : Outcome A) (f : A → Outcome B)
    → Gives P m
    → ((a : A) → P a → Gives Q (f a))
    → Gives Q (m >>= f)
>>=-Gives P Q (ok a) f g k = k a g
>>=-Gives P Q panic f g k = g
>>=-Gives P Q stuck f g k = g

pub Gives-ok {ℓ} :
    {A : Type ℓ} (P : A → Type 0) (m : Outcome A) → Gives P m → (a : A) × (m ≡ ok a) × P a
Gives-ok P (ok a) g = (a, refl, g)
Gives-ok P panic g = absurd g
Gives-ok P stuck g = absurd g

pub Gives-map {ℓ} :
    {A : Type ℓ} (P Q : A → Type 0) (m : Outcome A) → Gives P m → ((a : A) → P a → Q a) → Gives Q m
Gives-map P Q (ok a) g h = h a g
Gives-map P Q panic g h = g
Gives-map P Q stuck g h = g
