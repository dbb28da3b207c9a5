-- ===== src/Common/Options.antt =====
-- Chains of steps that may fail.
use mathlib.Core.Option.{Option, none, some}

infixl 5 ◌>>=◌ ◌>>◌
abbrev pub ◌>>=◌ {ℓ κ} : {A : Type ℓ} {B : Type κ} → Option A → (A → Option B) → Option B
none >>= f = none
some a >>= f = f a

abbrev pub ◌>>◌ {ℓ κ} : {A : Type ℓ} {B : Type κ} → Option A → Option B → Option B
m >> k = m >>= λ _. k

-- A result, if there is one, has the property.
abbrev pub Each {ℓ κ} : {A : Type ℓ} → (A → Type κ) → Option A → Type κ
Each P none = Unit
Each P (some a) = P a

pub bind-Each {ℓ κ μ} :
    {A : Type ℓ} {B : Type κ} (P : B → Type μ) (o : Option A) (f : A → B)
    → ((a : A) → P (f a))
    → Each P (o >>= λ a. some (f a))
bind-Each P none f h = tt
bind-Each P (some a) f h = h a

pub chain-Each {ℓ κ μ ν} :
    {A : Type ℓ} {B : Type κ} (P : A → Type μ) (Q : B → Type ν) (o : Option A) (f : A → Option B)
    → ((a : A) → P a → Each Q (f a))
    → Each P o
    → Each Q (o >>= f)
chain-Each P Q none f h p = tt
chain-Each P Q (some a) f h p = h a p

pub Each-map {ℓ κ μ} :
    {A : Type ℓ} (P : A → Type κ) (Q : A → Type μ) (o : Option A)
    → ((a : A) → P a → Q a)
    → Each P o
    → Each Q o
Each-map P Q none h p = tt
Each-map P Q (some a) h p = h a p
