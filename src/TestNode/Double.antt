-- ===== src/TestNode/Double.antt =====
-- All that the judge does with a `double`: three constants' worth of arithmetic and comparisons.
use mathlib.Core.Logic.{◌↔◌}
use oink_judge.Prelude.{
  ℕ, ◌+◌, Bool, true, false, ◌≡◌, refl, if◌then◌else◌, string_eq, nat_eq, arith, ltb,
}

pub record Double (W : Type 0) : Type 0 where
  pub nought : W
  pub hundred : W
  pub plus : W → W → W
  pub less : W → W → Bool
  pub equal : W → W → Bool

module _ {W : Type 0} ⦃d : Double W⦄ where
  -- std::min and std::max: the first argument unless the second is strictly better
  abbrev pub std_min : W → W → W
  std_min a b = if d.less b a then b else a

  abbrev pub std_max : W → W → W
  std_max a b = if d.less a b then b else a

  infix 4 ◌≼◌
  abbrev pub ◌≼◌ : W → W → Type 0
  a ≼ b = d.less b a ≡ false

-- The order of the doubles that are not NaN; 0.0 and -0.0 are equal without being the same.
pub record IsOrdered (W : Type 0) ⦃d : Double W⦄ : Type 0 where
  pub less_asymm : (a b : W) → d.less a b ≡ true → b ≼ a → ⊥
  pub le_of_less : (a b : W) → d.less a b ≡ true → a ≼ b
  pub le_refl : (a : W) → a ≼ a
  pub le_trans : (a b c : W) → a ≼ b → b ≼ c → a ≼ c
  pub equal_iff : (a b : W) → (d.equal a b ≡ true) ↔ ((a ≼ b) × (b ≼ a))
  pub plus_nought :
      (a b : W)
      → d.equal a d.nought ≡ true
      → d.equal b d.nought ≡ true
      → d.equal (d.plus a b) d.nought ≡ true
  pub nought_less_hundred : d.less d.nought d.hundred ≡ true

-- The laws can be met: whole numbers.
instance abbrev pub number_double : Double ℕ
number_double = record { nought = 0; hundred = 100; plus = ◌+◌; less = ltb; equal = nat_eq.beq }

pub number-IsOrdered : IsOrdered ℕ
number-IsOrdered = record {
  less_asymm = λ a b h k. cc;
  le_of_less = λ a b h. ground arith;
  le_refl = λ a. ground arith;
  le_trans = λ a b c h k. ground arith;
  equal_iff = λ a b. ground arith;
  plus_nought = λ a b h k. ground arith;
  nought_less_hundred = refl;
}
