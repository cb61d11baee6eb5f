-- ===== src/Base/Outcome.antt =====
-- How a kernel routine ends: with a value, or in a panic. A failed KASSERT, a call of panic() and
-- an access through a null pointer all stop the kernel, and are all `panic`.
use mathlib.Core.Path.{◌≡◌, refl}
use mathlib.Core.Bool.{Bool, true, false}
use mathlib.Core.Option.{Option, none, some}

pub data Outcome {ℓ} (A : Type ℓ) : Type ℓ where
  ok : A → Outcome A
  panic : Outcome A

infixl 5 ◌>>=◌ ◌>>◌
abbrev pub ◌>>=◌ {ℓ κ} : {A : Type ℓ} {B : Type κ} → Outcome A → (A → Outcome B) → Outcome B
ok a >>= f = f a
panic >>= f = panic

abbrev pub ◌>>◌ {ℓ} : {B : Type ℓ} → Outcome (Unit {0}) → Outcome B → Outcome B
m >> k = m >>= λ _. k

abbrev pub kassert : Bool → Outcome (Unit {0})
kassert true = ok tt
kassert false = panic

-- `p->field` for a pointer that may be NULL.
abbrev pub deref {ℓ} : {A : Type ℓ} → Option A → Outcome A
deref none = panic
deref (some a) = ok a

-- The values with which a routine may end, and that it does not panic.
abbrev pub Ends {ℓ} : {A : Type ℓ} → (A → Type 0) → Outcome A → Type 0
Ends P (ok a) = P a
Ends P panic = ⊥

pub Ends-mono {ℓ} :
    {A : Type ℓ} (P Q : A → Type 0) (o : Outcome A) → ((a : A) → P a → Q a) → Ends P o → Ends Q o
Ends-mono P Q (ok a) f h = f a h
Ends-mono P Q panic f h = h

pub Ends-bind {ℓ κ} :
    {A : Type ℓ} {B : Type κ} (P : A → Type 0) (Q : B → Type 0) (o : Outcome A) (k : A → Outcome B)
    → Ends P o
    → ((a : A) → P a → Ends Q (k a))
    → Ends Q (o >>= k)
Ends-bind P Q (ok a) k h next = next a h
Ends-bind P Q panic k h next = h

pub Ends-result {ℓ} :
    {A : Type ℓ} (P : A → Type 0) (o : Outcome A) → Ends P o → (a : A) × (o ≡ ok a) × P a
Ends-result P (ok a) h = (a, refl, h)
Ends-result P panic h = absurd h
