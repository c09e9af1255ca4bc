-- ===== src/TestNode/Tests.antt =====
-- Small test sets over whole numbers, and the theorems at such inputs. The state is the list of
-- what was done to the tests.
use mathlib.Core.List.{foldl}
use oink_judge.Prelude.{
  ℕ, String, ◌≡◌, refl, List, [], ◌∷◌, map, ◌==◌, if◌then◌else◌, All, ok, string_eq, nat_eq, arith,
}
use oink_judge.TestNode.Double.{number_double, number-IsOrdered}
use oink_judge.TestNode.Verdict.{
  partial_t, VerdictType, accepted, skipped, wrong_answer, Verdict, VerdictBuilder, clear_min,
  clear_sum, add_min, add_sum, score_is_not_zero, min_builder, sum_builder,
}
use oink_judge.TestNode.Verdict.Document.{end}
use oink_judge.TestNode.Verdict.Kinds.{kind_of, severity, severity-min_builder, kind-sum_builder}
use oink_judge.TestNode.Verdict.Scores.{Covers, min_builder-Covers}
use oink_judge.TestNode.Test.{Params, no_params, Test}
use oink_judge.TestNode.Testset.{set_limits, Testset, boxes_required, testset_run, testset_skip}
use oink_judge.TestNode.Testset.Skipping.{sum_testset-run-skip, min_testset-run-score, ScoresLike}

abbrev graded : String → VerdictType → ℕ → Verdict ℕ
graded name type score = record {
  test_name = name;
  info = record { type = type; score = score; time_used = 1; memory_used = 2; real_time_used = 3 };
  additional_info = end;
}

-- A test that logs what is done to it.
abbrev logging : String → VerdictType → ℕ → Test ℕ (List String)
logging name type score = record {
  name = name;
  boxes_required = 2;
  run = λ submission boxes params log. (ok (graded name type score), ("run " ∷ name ∷ log));
  skip = λ submission log. (ok (graded name skipped 0), ("skip " ∷ name ∷ log));
}

abbrev three_tests : List (Test ℕ (List String))
three_tests = logging "1" accepted 40 ∷ logging "2" wrong_answer 0 ∷ logging "3" accepted 30 ∷ []

abbrev with_builder : VerdictBuilder ℕ → Testset ℕ (List String)
with_builder builder = record {
  name = "main";
  time_limit = 1;
  memory_limit = 64;
  real_time_limit = 5;
  builder = builder;
  tests = three_tests;
}

abbrev two_boxes : List String
two_boxes = "0" ∷ "1" ∷ []

-- After the wrong answer the third test is skipped.
min_log :
    (testset_run (with_builder min_builder) "s" two_boxes no_params []).1
    ≡ "skip " ∷ "3" ∷ "run " ∷ "2" ∷ "run " ∷ "1" ∷ []
unfolding testset_run clear_min score_is_not_zero add_min
min_log = refl

sum_log :
    (testset_run (with_builder sum_builder) "s" two_boxes no_params []).1
    ≡ "skip " ∷ "3" ∷ "skip " ∷ "2" ∷ "skip " ∷ "1" ∷ []
unfolding testset_run clear_sum score_is_not_zero add_sum
sum_log = refl

sum_testset-run-skip_example :
    testset_run (with_builder sum_builder) "s" two_boxes no_params []
    ≡ testset_skip (with_builder sum_builder) "s" []
unfolding boxes_required
sum_testset-run-skip_example =
    sum_testset-run-skip number-IsOrdered "s" (with_builder sum_builder) two_boxes no_params [] refl
      (
        (λ s. (graded "1" skipped 0, "skip " ∷ "1" ∷ s, refl, refl)),
        (
          (λ s. (graded "2" skipped 0, "skip " ∷ "2" ∷ s, refl, refl)),
          ((λ s. (graded "3" skipped 0, "skip " ∷ "3" ∷ s, refl, refl)), tt),
        ),
      )
      (omega arith)

abbrev ran : Test ℕ (List String) → Verdict ℕ
ran t =
    if t.name == "1"
    then graded "1" accepted 40
    else if t.name == "2"
    then graded "2" wrong_answer 0
    else graded "3" accepted 30

abbrev not_ran : Test ℕ (List String) → Verdict ℕ
not_ran t = graded t.name skipped 0

abbrev min_limits : Params ℕ
min_limits = set_limits (with_builder min_builder) no_params

min_testset-run-score_example :
    ScoresLike number-IsOrdered "s" two_boxes min_limits ran not_ran
      (foldl add_min (clear_min "main") (map ran three_tests))
      (testset_run (with_builder min_builder) "s" two_boxes no_params [])
unfolding boxes_required
min_testset-run-score_example =
    min_testset-run-score number-IsOrdered "s" two_boxes min_limits ran not_ran
      (with_builder min_builder) no_params [] refl refl
      (
        ((λ s. ("run " ∷ "1" ∷ s, refl)), (λ s. ("skip " ∷ "1" ∷ s, refl)), refl, refl),
        (
          ((λ s. ("run " ∷ "2" ∷ s, refl)), (λ s. ("skip " ∷ "2" ∷ s, refl)), refl, refl),
          (((λ s. ("run " ∷ "3" ∷ s, refl)), (λ s. ("skip " ∷ "3" ∷ s, refl)), refl, refl), tt),
        ),
      )
      (omega arith)

abbrev some_verdicts : List (Verdict ℕ)
some_verdicts = graded "1" accepted 40 ∷ graded "2" wrong_answer 0 ∷ []

severity-min_builder_example :
    severity (kind_of (foldl add_min (clear_min "main") some_verdicts)) ≡ 2
severity-min_builder_example = severity-min_builder "main" some_verdicts

kind-sum_builder_example : kind_of (foldl add_sum (clear_sum "main") some_verdicts) ≡ partial_t
kind-sum_builder_example = kind-sum_builder "main" some_verdicts

min_builder-Covers_example :
    All (Covers number-IsOrdered (foldl add_min (clear_min "main") some_verdicts)) some_verdicts
min_builder-Covers_example = min_builder-Covers number-IsOrdered "main" some_verdicts
