-- ===== src/Prelude/Texts.antt =====
-- Texts read piece by piece.
use Prim.Native.Nat.{ℕ, zero, suc, ◌≤◌, ◌<◌}
use Prim.Native.String.{String, [], ◌∷◌, ◌++◌, count}
use mathlib.Core.Path.{◌≡◌, refl, ap, ◌∙◌}
use mathlib.Core.Bool.{Bool, true, false}
use oink_judge.Prelude.Tests.{◌==◌, if◌then◌else◌, string_eq}
use native.Mathlib.Omega.{arith}
use text.Mathlib.TextLemmas.{nil-append, cons-append, length-nil, length-cons}

abbrev pub is_empty : String → Bool
is_empty [] = true
is_empty (c ∷ s) = false

-- What C reads of a text: up to the first NUL.
unfoldable pub c_string : String → String
c_string [] = []
c_string (c ∷ s) = let rest = c_string s in if (c ∷ []) == "\0" then [] else c ∷ rest

c_string-run : c_string "ab\0cd" ≡ "ab"
unfolding c_string
c_string-run = refl

-- The first `n` characters, and the rest.
unfoldable pub split_at : ℕ → String → String × String
split_at zero s = ([], s)
split_at (suc n) [] = ([], [])
split_at (suc n) (c ∷ s) = let (front, rest) = split_at n s in (c ∷ front, rest)

pub append-split_at : (n : ℕ) (s : String) → (split_at n s).0 ++ (split_at n s).1 ≡ s
unfolding split_at
append-split_at zero s = nil-append s
append-split_at (suc n) [] = nil-append []
append-split_at (suc n) (c ∷ s) =
    cons-append c (split_at n s).0 (split_at n s).1 ∙ ap (λ r. c ∷ r) (append-split_at n s)

pub count-split_at-le : (n : ℕ) (s : String) → count (split_at n s).0 ≤ n
unfolding split_at
count-split_at-le zero s = omega (arith, length-nil)
count-split_at-le (suc n) [] = omega (arith, length-nil)
count-split_at-le (suc n) (c ∷ s) =
    omega (arith, length-cons c (split_at n s).0, count-split_at-le n s)

-- Less than `n` characters are read only at the end.
pub split_at-end : (n : ℕ) (s : String) → count (split_at n s).0 < n → (split_at n s).1 ≡ []
unfolding split_at
split_at-end zero s h = absurd (omega arith)
split_at-end (suc n) [] h = refl
split_at-end (suc n) (c ∷ s) h = split_at-end n s (omega (arith, h, length-cons c (split_at n s).0))

-- Nothing is read only at the end.
pub split_at-is_empty : (n : ℕ) (s : String) → 0 < n → is_empty (split_at n s).0 ≡ true → s ≡ []
unfolding split_at
split_at-is_empty zero s h e = absurd (omega arith)
split_at-is_empty (suc n) [] h e = refl
split_at-is_empty (suc n) (c ∷ s) h e = cc

count-split_at-rest : (n : ℕ) (s : String) → count (split_at n s).1 ≤ count s
unfolding split_at
count-split_at-rest zero s = omega arith
count-split_at-rest (suc n) [] = omega arith
count-split_at-rest (suc n) (c ∷ s) = omega (arith, length-cons c s, count-split_at-rest n s)

-- What is read makes the rest shorter.
pub count-split_at-lt :
    (n : ℕ) (s : String) → is_empty (split_at n s).0 ≡ false → count (split_at n s).1 < count s
unfolding split_at
count-split_at-lt zero s e = cc
count-split_at-lt (suc n) [] e = cc
count-split_at-lt (suc n) (c ∷ s) e = omega (arith, length-cons c s, count-split_at-rest n s)

-- The pieces one after another
pub append-is_empty : (s t : String) → is_empty s ≡ true → s ++ t ≡ t
append-is_empty [] t e = nil-append t
append-is_empty (c ∷ s) t e = cc
