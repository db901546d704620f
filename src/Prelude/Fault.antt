-- ===== src/Prelude/Fault.antt =====
-- What a C++ expression may do beside returning a value: run into undefined behaviour, or throw
-- the `std::out_of_range` of `vector::at`.
use mathlib.Core.Path.{◌≡◌, refl}

pub data Fault : Type 0 where
  undefined out_of_range : Fault

pub data Result {ℓ} (A : Type ℓ) : Type ℓ where
  err : Fault → Result A
  ok : A → Result A

infixl 5 ◌>>=◌
abbrev pub ◌>>=◌ {ℓ κ} : {A : Type ℓ} → {B : Type κ} → Result A → (A → Result B) → Result B
err fault >>= k = err fault
ok x >>= k = k x

pub bind-eq-ok {ℓ κ} :
    {A : Type ℓ} {B : Type κ} (first : Result A) (next : A → Result B) {y : B}
    → (first >>= next) ≡ ok y
    → (x : A) × (first ≡ ok x) × (next x ≡ ok y)
bind-eq-ok (err fault) next h = cc
bind-eq-ok (ok x) next h = (x, refl, h)

-- What holds of the value, where there is one.
abbrev pub Holds {ℓ κ} : {A : Type ℓ} → (A → Type κ) → Result A → Type κ
Holds P (err fault) = Unit
Holds P (ok x) = P x

pub bind-Holds {ℓ κ μ ν} :
    {A : Type ℓ} {B : Type κ} (P : A → Type μ) (Q : B → Type ν) (first : Result A)
    (next : A → Result B)
    → Holds P first
    → ((x : A) → P x → Holds Q (next x))
    → Holds Q (first >>= next)
bind-Holds P Q (err fault) next h k = tt
bind-Holds P Q (ok x) next h k = k x h

pub then-Holds {ℓ κ ν} :
    {A : Type ℓ} {B : Type κ} (Q : B → Type ν) (first : Result A) (next : A → Result B)
    → ((x : A) → Holds Q (next x))
    → Holds Q (first >>= next)
then-Holds Q (err fault) next k = tt
then-Holds Q (ok x) next k = k x
