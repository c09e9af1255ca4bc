-- ===== src/TestNode/Verdict/Scores.antt =====
-- verdict_builder_min.cpp and verdict_builder_sum.cpp: the scores and the times that they report.
use mathlib.Core.List.{foldl}
use oink_judge.Prelude.{
  ℕ, suc, String, true, ◌≡◌, refl, some, List, [], ◌∷◌, get_elem?, All, string_eq, nat_eq, ◌⊎◌, inl,
  inr, Bool-cases,
}
use oink_judge.TestNode.Double.{Double, IsOrdered, std_min, std_max, ◌≼◌, number_double}
use oink_judge.TestNode.Verdict.{Verdict, clear_min, add_min}

abbrev pub score_of : {W : Type 0} → Verdict W → W
score_of v = v.info.score

abbrev pub IsZero : {W : Type 0} ⦃d : Double W⦄ → W → Type 0
IsZero ⦃d⦄ a = d.equal a d.nought ≡ true

-- Scores below zero do not occur.
abbrev pub IsScore : {W : Type 0} ⦃d : Double W⦄ → W → Type 0
IsScore ⦃d⦄ a = d.nought ≼ a

module _ {W : Type 0} ⦃d : Double W⦄ (o : IsOrdered W) where
  std_min-le_left : (a b : W) → std_min a b ≼ a
  std_min-le_left a b = elim (Bool-cases (d.less b a)) [
    | inl e ↦ rw e (o.le_of_less b a e)
    | inr e ↦ rw e (o.le_refl a)
  ]

  std_min-le_right : (a b : W) → std_min a b ≼ b
  std_min-le_right a b = elim (Bool-cases (d.less b a)) [
    | inl e ↦ rw e (o.le_refl b)
    | inr e ↦ rw e e
  ]

  le-std_max_left : (a b : W) → a ≼ std_max a b
  le-std_max_left a b = elim (Bool-cases (d.less a b)) [
    | inl e ↦ rw e (o.le_of_less a b e)
    | inr e ↦ rw e (o.le_refl a)
  ]

  le-std_max_right : (a b : W) → b ≼ std_max a b
  le-std_max_right a b = elim (Bool-cases (d.less a b)) [
    | inl e ↦ rw e (o.le_refl b)
    | inr e ↦ rw e e
  ]

  std_min-IsScore : (a b : W) → IsScore a → IsScore b → IsScore (std_min a b)
  std_min-IsScore a b ha hb = elim (Bool-cases (d.less b a)) [ inl e ↦ rw e hb | inr e ↦ rw e ha ]

  IsZero-of_le : (a b : W) → IsScore a → a ≼ b → IsZero b → IsZero a
  IsZero-of_le a b s l z =
      (o.equal_iff a d.nought).1 (o.le_trans a b d.nought l ((o.equal_iff b d.nought).0 z).0, s)

  pub hundred-IsScore : IsScore d.hundred
  hundred-IsScore = o.le_of_less d.nought d.hundred o.nought_less_hundred

  -- A score of zero stays zero under the min builder.
  pub add_min-IsZero :
      (current v : Verdict W)
      → IsScore (score_of current)
      → IsScore (score_of v)
      → (IsZero (score_of current) ⊎ IsZero (score_of v))
      → IsZero (score_of (add_min current v))
  unfolding add_min
  add_min-IsZero current v hc hv (inl z) =
      IsZero-of_le _ _ (std_min-IsScore _ _ hc hv) (std_min-le_left _ _) z
  add_min-IsZero current v hc hv (inr z) =
      IsZero-of_le _ _ (std_min-IsScore _ _ hc hv) (std_min-le_right _ _) z

  pub add_min-IsScore :
      (current v : Verdict W)
      → IsScore (score_of current)
      → IsScore (score_of v)
      → IsScore (score_of (add_min current v))
  unfolding add_min
  add_min-IsScore current v hc hv = std_min-IsScore _ _ hc hv

  -- No worse than the current verdict and the new one, in score and in time.
  pub record Covers (total v : Verdict W) : Type 0 where
    pub score : total.info.score ≼ v.info.score
    pub time : v.info.time_used ≼ total.info.time_used
    pub memory : v.info.memory_used ≼ total.info.memory_used
    pub real_time : v.info.real_time_used ≼ total.info.real_time_used

  Covers-trans : (a b c : Verdict W) → Covers a b → Covers b c → Covers a c
  Covers-trans a b c h k = record {
    score = o.le_trans _ _ _ h.score k.score;
    time = o.le_trans _ _ _ k.time h.time;
    memory = o.le_trans _ _ _ k.memory h.memory;
    real_time = o.le_trans _ _ _ k.real_time h.real_time;
  }

  Covers-refl : (a : Verdict W) → Covers a a
  Covers-refl a = record {
    score = o.le_refl _;
    time = o.le_refl _;
    memory = o.le_refl _;
    real_time = o.le_refl _;
  }

  add_min-Covers_left : (current v : Verdict W) → Covers (add_min current v) current
  unfolding add_min
  add_min-Covers_left current v = record {
    score = std_min-le_left _ _;
    time = le-std_max_left _ _;
    memory = le-std_max_left _ _;
    real_time = le-std_max_left _ _;
  }

  add_min-Covers_right : (current v : Verdict W) → Covers (add_min current v) v
  unfolding add_min
  add_min-Covers_right current v = record {
    score = std_min-le_right _ _;
    time = le-std_max_right _ _;
    memory = le-std_max_right _ _;
    real_time = le-std_max_right _ _;
  }

  foldl-Covers :
      (current : Verdict W) (vs : List (Verdict W))
      → Covers (foldl add_min current vs) current × All (Covers (foldl add_min current vs)) vs
  foldl-Covers current [] = (Covers-refl current, tt)
  foldl-Covers current (v ∷ vs) =
      let total = foldl add_min (add_min current v) vs in
      let (c, rest) = foldl-Covers (add_min current v) vs in
      (
        Covers-trans total (add_min current v) current c (add_min-Covers_left current v),
        (Covers-trans total (add_min current v) v c (add_min-Covers_right current v), rest),
      )

  -- The min builder reports a score at most every score that it was given, and times and memory at
  -- least all that it was given.
  pub min_builder-Covers :
      (name : String) (vs : List (Verdict W)) → All (Covers (foldl add_min (clear_min name) vs)) vs
  min_builder-Covers name vs = (foldl-Covers (clear_min name) vs).1

-- Where the score comes from.
module _ {W : Type 0} ⦃d : Double W⦄ where
  abbrev pub IsScoreOf : W → Verdict W → List (Verdict W) → Type 0
  IsScoreOf a current vs =
      (a ≡ score_of current)
      ⊎ ((i : ℕ) × (v : Verdict W) × (get_elem? vs i ≡ some v) × (a ≡ score_of v))

  IsScoreOf-cons :
      (a : W) (current v : Verdict W) (vs : List (Verdict W))
      → IsScoreOf a (add_min current v) vs
      → IsScoreOf a current (v ∷ vs)
  unfolding add_min
  IsScoreOf-cons a current v vs (inr (i, w, at, e)) = inr (suc i, w, at, e)
  IsScoreOf-cons a current v vs (inl e) =
      elim (Bool-cases (d.less v.info.score current.info.score)) [
        | inl less ↦ inr (0, v, refl, rw less at e)
        | inr more ↦ inl (rw more at e)
      ]

  foldl-IsScoreOf :
      (current : Verdict W) (vs : List (Verdict W))
      → IsScoreOf (score_of (foldl add_min current vs)) current vs
  foldl-IsScoreOf current [] = inl refl
  foldl-IsScoreOf current (v ∷ vs) =
      IsScoreOf-cons _ current v vs (foldl-IsScoreOf (add_min current v) vs)

  -- The score that the min builder reports is that of one of the verdicts, or the initial hundred.
  pub min_builder-IsScoreOf :
      (name : String) (vs : List (Verdict W))
      → IsScoreOf (score_of (foldl add_min (clear_min name) vs)) (clear_min name) vs
  min_builder-IsScoreOf name vs = foldl-IsScoreOf (clear_min name) vs
