-- ===== src/TestNode/Single/Sets.antt =====
-- single_test.cpp and testset.cpp: sets of single tests.
use Prim.Native.Nat.{max}
use oink_judge.Prelude.{
  ℕ, ◌≤◌, String, ◌≡◌, refl, List, [], ◌∷◌, map, length, All, string_eq, nat_eq, arith,
}
use oink_judge.TestNode.Double.{Double, IsOrdered}
use oink_judge.TestNode.Verdict.{Kind, sum_builder}
use oink_judge.TestNode.Test.{Params}
use oink_judge.TestNode.Meta.{Numbers}
use oink_judge.TestNode.Single.{Sandbox, SingleTest, single_skip, single_test}
use oink_judge.TestNode.Testset.{Testset, boxes_required, testset_run, testset_skip}
use oink_judge.TestNode.Testset.Skipping.{SkipsToZero, sum_testset-run-skip}

module _ {W S : Type 0} ⦃d : Double W⦄ (numbers : Numbers W) (sandbox : Sandbox W S)
    (unset : Kind) where
  boxes_required-single_test :
      (tests : List SingleTest) (m : ℕ)
      → m ≤ 2
      → boxes_required (map (single_test numbers sandbox unset) tests) m ≤ 2
  unfolding boxes_required
  boxes_required-single_test [] m h = h
  boxes_required-single_test (t ∷ tests) m h =
      boxes_required-single_test tests (max m 2) (omega (arith, h))

  All-SkipsToZero :
      (o : IsOrdered W) (submission_id : String) (tests : List SingleTest)
      → All (SkipsToZero o submission_id) (map (single_test numbers sandbox unset) tests)
  unfolding single_skip
  All-SkipsToZero o submission_id [] = tt
  All-SkipsToZero o submission_id (t ∷ tests) = (
    (λ s. (_, s, refl, (o.equal_iff d.nought d.nought).1 (o.le_refl _, o.le_refl _))),
    All-SkipsToZero o submission_id tests,
  )

  -- With two boxes, a set of single tests with the sum builder is skipped when it is run: the
  -- program is never started, whatever the tests are.
  pub sum_testset_of_singles-run-skip :
      (o : IsOrdered W) (set : Testset W S) (tests : List SingleTest) (submission_id : String)
      (boxes : List String) (params : Params W) (s : S)
      → set.builder ≡ sum_builder
      → set.tests ≡ map (single_test numbers sandbox unset) tests
      → 2 ≤ length boxes
      → testset_run set submission_id boxes params s ≡ testset_skip set submission_id s
  sum_testset_of_singles-run-skip o set tests submission_id boxes params s sum are enough =
      sum_testset-run-skip o submission_id set boxes params s sum
        (rw are (All-SkipsToZero o submission_id tests))
        (rw are (omega (arith, enough, boxes_required-single_test tests 0 (omega arith))))
