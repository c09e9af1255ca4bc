-- ===== src/Prelude/Await.antt =====
-- Calls that change a state, may throw, and hold loops that wait for something outside. Loops run
-- on fuel; without a result the call still waits.
use Prim.Native.String.{String}
use mathlib.Core.Path.{◌≡◌, subst}
use native.Mathlib.Omega.{arith}
use mathlib.Core.Option.{Option, none, some}
use oink_judge.Prelude.Exceptions.{Outcome, ok, thrown}

abbrev pub Await : Type 0 → Type 0 → Type 0
Await S A = S → Option (Outcome A × S)

abbrev pub pure : {S A : Type 0} → A → Await S A
pure a s = some (ok a, s)

abbrev pub raise : {S A : Type 0} → String → Await S A
raise e s = some (thrown e, s)

-- Still waiting
abbrev pub waiting : {S A : Type 0} → Await S A
waiting s = none

abbrev pub continue :
    {S A B : Type 0} → Option (Outcome A × S) → (A → Await S B) → Option (Outcome B × S)
continue none f = none
continue (some (ok a, s)) f = f a s
continue (some (thrown e, s)) f = some (thrown e, s)

infixl 5 ◌>>=◌ ◌>>◌
abbrev pub ◌>>=◌ : {S A B : Type 0} → Await S A → (A → Await S B) → Await S B
◌>>=◌ m f s = continue (m s) f

abbrev pub ◌>>◌ : {S A B : Type 0} → Await S A → Await S B → Await S B
m >> k = m >>= λ _. k

-- The call ends, and what it returns or throws satisfies `P` with the state that it leaves.
abbrev pub Ends : {S A : Type 0} → Option (Outcome A × S) → (Outcome A → S → Type 0) → Type 0
Ends none P = ⊥
Ends (some (r, s)) P = P r s

-- A call that goes on after one that returns.
pub Ends-continue :
    {S A B : Type 0} (run : Option (Outcome A × S)) (f : A → Await S B) (P : Outcome B → S → Type 0)
    (a : A) (Q : S → Type 0)
    → Ends run (λ r s. (r ≡ ok a) × Q s)
    → ((s : S) → Q s → Ends (f a s) P)
    → Ends (continue run f) P
Ends-continue none f P a Q h k = h
Ends-continue (some (ok b, s)) f P a Q (e, q) k = subst (λ x. Ends (f x s) P) (ground arith) (k s q)
Ends-continue (some (thrown e, s)) f P a Q h k = cc

pub Ends-mono :
    {S A : Type 0} (run : Option (Outcome A × S)) (P Q : Outcome A → S → Type 0)
    → ((r : Outcome A) (s : S) → P r s → Q r s)
    → Ends run P
    → Ends run Q
Ends-mono none P Q k h = h
Ends-mono (some (r, s)) P Q k h = k r s h

-- A call that goes on after one that may throw.
pub Ends-bind :
    {S A B : Type 0} (run : Option (Outcome A × S)) (f : A → Await S B) (P : Outcome A → S → Type 0)
    (Q : Outcome B → S → Type 0)
    → Ends run P
    → ((e : String) (s : S) → P (thrown e) s → Q (thrown e) s)
    → ((a : A) (s : S) → P (ok a) s → Ends (f a s) Q)
    → Ends (continue run f) Q
Ends-bind none f P Q h t k = h
Ends-bind (some (ok a, s)) f P Q h t k = k a s h
Ends-bind (some (thrown e, s)) f P Q h t k = t e s h
