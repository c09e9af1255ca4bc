-- ===== src/Prelude/Exceptions.antt =====
-- A C++ call that returns or throws, and such calls that also change a state.
use Prim.Native.String.{String}
use mathlib.Core.Option.{Option, none, some}

-- `thrown` carries what() of the exception.
pub data Outcome {ℓ} (A : Type ℓ) : Type ℓ where
  ok : A → Outcome A
  thrown : String → Outcome A

-- A call that returns nothing, or throws.
abbrev pub Reply : Type 0
Reply = Outcome Unit

infixl 5 ◌>>=◌
abbrev pub ◌>>=◌ {ℓ κ} : {A : Type ℓ} {B : Type κ} → Outcome A → (A → Outcome B) → Outcome B
ok a >>= f = f a
thrown e >>= f = thrown e

abbrev pub or_throw {ℓ} : {A : Type ℓ} → Option A → String → Outcome A
or_throw none e = thrown e
or_throw (some a) e = ok a

-- The call returns, and what it returns satisfies `P`.
abbrev pub Returns {ℓ} : {A : Type ℓ} → Outcome A → (A → Type 0) → Type 0
Returns (ok a) P = P a
Returns (thrown e) P = ⊥

pub Returns-mono {ℓ} :
    {A : Type ℓ} (m : Outcome A) (P : A → Type 0) (Q : A → Type 0)
    → ((a : A) → P a → Q a)
    → Returns m P
    → Returns m Q
Returns-mono (ok a) P Q h p = h a p
Returns-mono (thrown e) P Q h p = absurd p

-- The state after a call; an exception leaves the state as it was.
abbrev pub after {ℓ} : {A : Type ℓ} → A → Outcome A → A
after a (ok b) = b
after a (thrown e) = a

pub Returns-both {ℓ} :
    {A : Type ℓ} (m : Outcome A) (P : A → Type 0) (Q : A → Type 0)
    → Returns m P
    → Returns m Q
    → Returns m (λ a. P a × Q a)
Returns-both (ok a) P Q p q = (p, q)
Returns-both (thrown e) P Q p q = absurd p

pub Returns-bind {ℓ κ} :
    {A : Type ℓ} {B : Type κ} (m : Outcome A) (f : A → Outcome B) (P : B → Type 0)
    → Returns m (λ a. Returns (f a) P)
    → Returns (m >>= f) P
Returns-bind (ok a) f P h = h
Returns-bind (thrown e) f P h = absurd h
