-- ===== src/TestNode/Verdict/Kinds.antt =====
-- verdict_builder_min.cpp and verdict_builder_sum.cpp: the type of the verdict that they build.
use Prim.Native.Nat.{max}
use mathlib.Core.List.{foldl}
use oink_judge.Prelude.{
  ℕ, String, Bool, true, false, ◌&&◌, ◌||◌, ◌≡◌, refl, List, [], ◌∷◌, if◌then◌else◌, string_eq,
  nat_eq, arith,
}
use oink_judge.TestNode.Double.{Double, number_double}
use oink_judge.TestNode.Verdict.{
  Kind, accepted_t, partial_t, skipped_t, wrong_t, failed_t, VerdictType, Verdict, min_type,
  clear_min, clear_sum, add_min, add_sum,
}

-- How bad a verdict is. Partial and skipped are as bad as one another.
abbrev pub severity : Kind → ℕ
severity accepted_t = 0
severity partial_t = 1
severity skipped_t = 1
severity wrong_t = 2
severity failed_t = 3

abbrev pub kind_of : {W : Type 0} → Verdict W → Kind
kind_of v = v.info.type.kind

abbrev pub worst : {W : Type 0} → List (Verdict W) → ℕ
worst [] = 0
worst (v ∷ vs) = max (severity (kind_of v)) (worst vs)

severity-min_type :
    (a b : VerdictType) → severity (min_type a b).kind ≡ max (severity a.kind) (severity b.kind)
unfolding min_type
severity-min_type a b = ground arith

-- The kind for the sum of verdicts.
abbrev is_failed : Kind → Bool
is_failed failed_t = true
is_failed _ = false

abbrev is_accepted : Kind → Bool
is_accepted accepted_t = true
is_accepted _ = false

abbrev any_failed : {W : Type 0} → List (Verdict W) → Bool
any_failed [] = false
any_failed (v ∷ vs) = is_failed (kind_of v) || any_failed vs

abbrev all_accepted : {W : Type 0} → List (Verdict W) → Bool
all_accepted [] = true
all_accepted (v ∷ vs) = is_accepted (kind_of v) && all_accepted vs

abbrev pub sum_kind : {W : Type 0} → List (Verdict W) → Kind
sum_kind vs = if any_failed vs then failed_t else if all_accepted vs then accepted_t else partial_t

module _ {W : Type 0} ⦃d : Double W⦄ where
  worst-foldl :
      (current : Verdict W) (vs : List (Verdict W))
      → severity (kind_of (foldl add_min current vs)) ≡ max (severity (kind_of current)) (worst vs)
  unfolding add_min
  worst-foldl current [] = omega arith
  worst-foldl current (v ∷ vs) =
      omega
        (arith, worst-foldl (add_min current v) vs, severity-min_type current.info.type v.info.type)

  -- The min builder reports a type as bad as the worst that it was given.
  pub severity-min_builder :
      (name : String) (vs : List (Verdict W))
      → severity (kind_of (foldl add_min (clear_min name) vs)) ≡ worst vs
  unfolding clear_min
  severity-min_builder name vs = omega (arith, worst-foldl (clear_min name) vs)

  after_failed :
      (current : Verdict W) (vs : List (Verdict W))
      → kind_of current ≡ failed_t
      → kind_of (foldl add_sum current vs) ≡ failed_t
  unfolding add_sum
  after_failed current [] e = e
  after_failed current (v ∷ vs) e = after_failed (add_sum current v) vs (ground arith)

  after_partial :
      (current : Verdict W) (vs : List (Verdict W))
      → kind_of current ≡ partial_t
      → kind_of (foldl add_sum current vs) ≡ (if any_failed vs then failed_t else partial_t)
  unfolding add_sum
  after_partial current [] e = e
  after_partial current (v ∷ vs) e =
      ground (arith, after_failed (add_sum current v) vs, after_partial (add_sum current v) vs)

  after_accepted :
      (current : Verdict W) (vs : List (Verdict W))
      → kind_of current ≡ accepted_t
      → kind_of (foldl add_sum current vs) ≡ sum_kind vs
  unfolding add_sum
  after_accepted current [] e = e
  after_accepted current (v ∷ vs) e = ground (
    arith,
    after_failed (add_sum current v) vs,
    after_partial (add_sum current v) vs,
    after_accepted (add_sum current v) vs,
  )

  -- The sum builder reports failed if any verdict failed, accepted if all were accepted,
  -- and partial in every other case, also where all answers were wrong.
  pub kind-sum_builder :
      (name : String) (vs : List (Verdict W))
      → kind_of (foldl add_sum (clear_sum name) vs) ≡ sum_kind vs
  unfolding clear_sum
  kind-sum_builder name vs = after_accepted (clear_sum name) vs refl
