-- ===== src/Prelude/Dict.antt =====
-- Dictionaries with text keys, as lists of their entries.
use Prim.Native.String.{String}
use mathlib.Core.Path.{◌≡◌, refl, subst}
use mathlib.Core.Logic.{inl, inr}
use mathlib.Core.List.{List, [], ◌∷◌}
use mathlib.Core.Option.{Option, none, some}
use native.Mathlib.Omega.{arith}
use text.Mathlib.TextEquality.{eq_iff}
use oink_judge.Prelude.Lists.{All}
use oink_judge.Prelude.Tests.{Bool-cases, ◌==◌, string_eq, if◌then◌else◌}

module _ {ℓ} {V : Type ℓ} where
  unfoldable pub lookup : (key : String) (entries : List (String × V)) → Option V
  lookup key [] = none
  lookup key ((other, value) ∷ rest) = if other == key then some value else lookup key rest

  -- m[key] = value: an entry keeps its place, a new one comes last.
  unfoldable pub insert :
      (key : String) (value : V) (entries : List (String × V)) → List (String × V)
  insert key value [] = (key, value) ∷ []
  insert key value ((other, old) ∷ rest) =
      if other == key then (key, value) ∷ rest else (other, old) ∷ insert key value rest

  -- Every entry under the key goes.
  unfoldable pub erase : String → List (String × V) → List (String × V)
  erase key [] = []
  erase key ((other, value) ∷ entries) =
      let rest = erase key entries in if other == key then rest else (other, value) ∷ rest

  pub lookup-insert :
      (key wanted : String) (value : V) (entries : List (String × V))
      → lookup wanted (insert key value entries)
        ≡ (if key == wanted then some value else lookup wanted entries)
  unfolding lookup insert
  lookup-insert key wanted value [] = refl
  lookup-insert key wanted value ((other, old) ∷ rest) = ground (
    arith,
    lookup-insert key wanted value rest,
    eq_iff other key,
    eq_iff other wanted,
    eq_iff key wanted,
  )

  pub lookup-erase :
      (key wanted : String) (entries : List (String × V))
      → lookup wanted (erase key entries) ≡ (if key == wanted then none else lookup wanted entries)
  unfolding lookup erase
  lookup-erase key wanted [] = ground arith
  lookup-erase key wanted ((other, value) ∷ rest) = ground (
    arith,
    lookup-erase key wanted rest,
    eq_iff other key,
    eq_iff other wanted,
    eq_iff key wanted,
  )

  -- No key stands twice.
  abbrev pub UniqueKeys : List (String × V) → Type ℓ
  UniqueKeys [] = Unit
  UniqueKeys ((k, v) ∷ m) = (lookup k m ≡ none) × UniqueKeys m

-- What holds of every entry holds of the one that is found.
pub All-lookup {ℓ κ} :
    {V : Type ℓ} (P : String → V → Type κ) (m : List (String × V)) (k : String) {v : V}
    → All (λ x. P x.0 x.1) m
    → lookup k m ≡ some v
    → P k v
unfolding lookup
All-lookup P [] k a e = cc
All-lookup P ((j, w) ∷ m) k {v} a e = elim (Bool-cases (j == k)) [
  | inl hit ↦ subst (λ i. P i v) ((eq_iff j k).0 hit) (subst (P j) (ground arith) a.0)
  | inr miss ↦ All-lookup P m k a.1 (ground arith)
]
