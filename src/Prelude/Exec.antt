-- ===== src/Prelude/Exec.antt =====
-- Calls that change a state and may throw. What was done before the throw stays done.
use Prim.Native.String.{String}
use oink_judge.Prelude.Exceptions.{Outcome, ok, thrown}

abbrev pub Exec : Type 0 → Type 0 → Type 0
Exec S A = S → Outcome A × S

abbrev pub pure : {S A : Type 0} → A → Exec S A
pure a s = (ok a, s)

abbrev pub raise : {S A : Type 0} → String → Exec S A
raise e s = (thrown e, s)

abbrev pub lift : {S A : Type 0} → Outcome A → Exec S A
lift r s = (r, s)

abbrev pub update : {S : Type 0} → (S → S) → Exec S Unit
update f s = (ok tt, f s)

abbrev pub continue : {S A B : Type 0} → Outcome A → (A → Exec S B) → Exec S B
continue (ok a) f s = f a s
continue (thrown e) f s = (thrown e, s)

infixl 5 ◌>>=◌ ◌>>◌
abbrev pub ◌>>=◌ : {S A B : Type 0} → Exec S A → (A → Exec S B) → Exec S B
◌>>=◌ m f s = let (r, s') = m s in continue r f s'

abbrev pub ◌>>◌ : {S A B : Type 0} → Exec S A → Exec S B → Exec S B
m >> k = m >>= λ _. k
