-- ===== src/Base/Result.antt =====
-- What a Go call comes to: a value, an `error`, a run-time panic (an index or slice out of range),
-- or, where the model of a loop runs on fuel, the end of the fuel. No Go run does the last.
use mathlib.Core.Path.{◌≡◌, refl}

pub data Result {ℓ} (E : Type 0) (A : Type ℓ) : Type ℓ where
  ok : A → Result E A
  err : E → Result E A
  panic : Result E A
  no_fuel : Result E A

infixl 5 ◌>>=◌ ◌>>◌
abbrev pub ◌>>=◌ {ℓ κ} :
    {E : Type 0} {A : Type ℓ} {B : Type κ} → Result E A → (A → Result E B) → Result E B
ok a >>= f = f a
err e >>= f = err e
panic >>= f = panic
no_fuel >>= f = no_fuel

abbrev pub ◌>>◌ {ℓ} : {E : Type 0} {B : Type ℓ} → Result E (Unit {0}) → Result E B → Result E B
m >> k = m >>= λ _. k

-- The call comes back, with a value or with an error.
abbrev pub Returns {ℓ} : {E : Type 0} {A : Type ℓ} → Result E A → Type 0
Returns (ok a) = Unit
Returns (err e) = Unit
Returns panic = ⊥
Returns no_fuel = ⊥

-- The call comes back, and a value that it gives satisfies the predicate.
abbrev pub Yields {ℓ} : {E : Type 0} {A : Type ℓ} → (A → Type 0) → Result E A → Type 0
Yields P (ok a) = P a
Yields P (err e) = Unit
Yields P panic = ⊥
Yields P no_fuel = ⊥

pub bind-eq-ok {ℓ κ} :
    {E : Type 0} {A : Type ℓ} {B : Type κ} (m : Result E A) (f : A → Result E B) {b : B}
    → (m >>= f) ≡ ok b
    → (a : A) × (m ≡ ok a) × (f a ≡ ok b)
bind-eq-ok (ok a) f h = (a, refl, h)
bind-eq-ok (err e) f h = cc
bind-eq-ok panic f h = cc
bind-eq-ok no_fuel f h = cc

pub Returns-bind {ℓ κ} :
    {E : Type 0} {A : Type ℓ} {B : Type κ} (m : Result E A) (f : A → Result E B)
    → Returns m
    → ((a : A) → m ≡ ok a → Returns (f a))
    → Returns (m >>= f)
Returns-bind (ok a) f h k = k a refl
Returns-bind (err e) f h k = tt
Returns-bind panic f h k = h
Returns-bind no_fuel f h k = h
