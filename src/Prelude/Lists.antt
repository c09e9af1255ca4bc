-- ===== src/Prelude/Lists.antt =====
-- Lists measured and indexed by native numbers, under the library's names.
use Prim.Native.Nat.{ℕ, zero, suc, ◌+◌}
use mathlib.Core.Path.{◌≡◌, refl, ap, subst}
use mathlib.Core.List.{List, [], ◌∷◌, ◌++◌}
use mathlib.Core.Option.{Option, none, some}
use mathlib.Core.Logic.{◌≢◌}
use native.Mathlib.Omega.{arith}
use oink_judge.Prelude.Tests.{Eq, ◌==◌, if◌then◌else◌}

module _ {ℓ} {A : Type ℓ} where
  abbrev pub length : List A → ℕ
  length [] = 0
  length (x ∷ xs) = suc (length xs)

  abbrev pub get_elem? : List A → ℕ → Option A
  get_elem? [] i = none
  get_elem? (x ∷ xs) zero = some x
  get_elem? (x ∷ xs) (suc i) = get_elem? xs i

  -- `v[i] = f(v[i])`; nothing where `i` is out of range.
  abbrev pub modify : List A → ℕ → (A → A) → List A
  modify [] i f = []
  modify (x ∷ xs) zero f = f x ∷ xs
  modify (x ∷ xs) (suc i) f = x ∷ modify xs i f

  -- `v.erase(v.begin() + i)`
  abbrev pub erase_at : List A → ℕ → List A
  erase_at [] i = []
  erase_at (x ∷ xs) zero = xs
  erase_at (x ∷ xs) (suc i) = x ∷ erase_at xs i

  abbrev pub All {κ} : (A → Type κ) → List A → Type κ
  All P [] = Unit
  All P (x ∷ xs) = P x × All P xs

  pub length-append : (xs ys : List A) → length (xs ++ ys) ≡ length xs + length ys
  length-append [] ys = omega arith
  length-append (x ∷ xs) ys = omega (arith, length-append xs ys)

  pub All-append {κ} : (P : A → Type κ) (xs ys : List A) → All P xs → All P ys → All P (xs ++ ys)
  All-append P [] ys hx hy = hy
  All-append P (x ∷ xs) ys hx hy = (hx.0, All-append P xs ys hx.1 hy)

module _ {ℓ} {A : Type ℓ} ⦃e : Eq A⦄ where
  -- How often a value occurs.
  abbrev pub count : A → List A → ℕ
  count a [] = 0
  count a (x ∷ xs) = (if x == a then 1 else 0) + count a xs

  pub count-append : (a : A) (xs ys : List A) → count a (xs ++ ys) ≡ count a xs + count a ys
  count-append a [] ys = omega arith
  count-append a (x ∷ xs) ys = omega (arith, count-append a xs ys)

module _ {ℓ κ μ} {A : Type ℓ} {P : A → Type κ} {Q : A → Type μ} where
  pub All-mono : (xs : List A) → ((x : A) → P x → Q x) → All P xs → All Q xs
  All-mono [] h p = tt
  All-mono (x ∷ xs) h p = (h x p.0, All-mono xs h p.1)

module _ {ℓ κ} {A : Type ℓ} (P : A → Type κ) where
  pub All-get_elem? : (xs : List A) (i : ℕ) {x : A} → All P xs → get_elem? xs i ≡ some x → P x
  All-get_elem? [] i p e = cc
  All-get_elem? (y ∷ xs) zero p e = subst P (cc) p.0
  All-get_elem? (y ∷ xs) (suc i) p e = All-get_elem? xs i p.1 e

  pub All-modify :
      (xs : List A) (i : ℕ) (f : A → A)
      → ((x : A) → get_elem? xs i ≡ some x → P (f x))
      → All P xs
      → All P (modify xs i f)
  All-modify [] i f h p = tt
  All-modify (x ∷ xs) zero f h p = (h x refl, p.1)
  All-modify (x ∷ xs) (suc i) f h p = (p.0, All-modify xs i f h p.1)

  pub All-erase_at : (xs : List A) (i : ℕ) → All P xs → All P (erase_at xs i)
  All-erase_at [] i p = tt
  All-erase_at (x ∷ xs) zero p = p.1
  All-erase_at (x ∷ xs) (suc i) p = (p.0, All-erase_at xs i p.1)

module _ {ℓ} {A : Type ℓ} where
  pub modify-modify :
      (xs : List A) (i : ℕ) (f g : A → A) → modify (modify xs i f) i g ≡ modify xs i (λ x. g (f x))
  modify-modify [] i f g = refl
  modify-modify (x ∷ xs) zero f g = refl
  modify-modify (x ∷ xs) (suc i) f g = ap (λ r. x ∷ r) (modify-modify xs i f g)

  pub get_elem?-append_length :
      (xs : List A) (x : A) → get_elem? (xs ++ x ∷ []) (length xs) ≡ some x
  get_elem?-append_length [] x = refl
  get_elem?-append_length (y ∷ xs) x = get_elem?-append_length xs x

module _ {ℓ κ μ ν} {A : Type ℓ} {P : A → Type κ} {Q : A → Type μ} {R : A → Type ν} where
  pub All-both : (xs : List A) → ((x : A) → P x → Q x → R x) → All P xs → All Q xs → All R xs
  All-both [] h p q = tt
  All-both (x ∷ xs) h p q = (h x p.0 q.0, All-both xs h p.1 q.1)

module _ {ℓ κ} {A : Type ℓ} (P : A → Type κ) where
  pub All-erase_at_ne :
      (xs : List A) (i j : ℕ) {x : A}
      → i ≢ j
      → get_elem? xs j ≡ some x
      → All P (erase_at xs i)
      → P x
  All-erase_at_ne [] i j h e p = cc
  All-erase_at_ne (y ∷ xs) zero zero h e p = absurd (h refl)
  All-erase_at_ne (y ∷ xs) zero (suc j) h e p = All-get_elem? P xs j p e
  All-erase_at_ne (y ∷ xs) (suc i) zero h e p = subst P (cc) p.0
  All-erase_at_ne (y ∷ xs) (suc i) (suc j) h e p = All-erase_at_ne xs i j (λ q. h (ap suc q)) e p.1

  pub All-unappend : (xs ys : List A) → All P (xs ++ ys) → All P xs × All P ys
  All-unappend [] ys p = (tt, p)
  All-unappend (x ∷ xs) ys p = let (a, b) = All-unappend xs ys p.1 in ((p.0, a), b)

pub modify-append_length {ℓ} :
    {A : Type ℓ} (xs : List A) (x : A) (f : A → A)
    → modify (xs ++ x ∷ []) (length xs) f ≡ xs ++ f x ∷ []
modify-append_length [] x f = refl
modify-append_length (y ∷ xs) x f = ap (λ r. y ∷ r) (modify-append_length xs x f)

pub some_inj {ℓ} : {A : Type ℓ} {a b : A} → some a ≡ some b → a ≡ b
some_inj e = cc

pub count_self {ℓ} : {A : Type ℓ} ⦃e : Eq A⦄ (x : A) → count x (x ∷ []) ≡ 1
count_self ⦃e⦄ x = rw ((e.beq_iff x x).1 refl)
