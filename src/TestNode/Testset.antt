-- ===== src/TestNode/Testset.antt =====
-- modules/test_node/src/tests/testset.cpp
pub mod Skipping
use Prim.Native.Nat.{max}
use oink_judge.Prelude.{
  ℕ, String, some, List, [], ◌∷◌, length, if◌then◌else◌, string_eq, nat_eq, arith, ltb,
}
use oink_judge.Prelude.Exec.{Exec, pure, raise, ◌>>=◌}
use oink_judge.TestNode.Verdict.{Verdict, VerdictBuilder}
use oink_judge.TestNode.Test.{Params, Test}

-- What the constructor reads from the problem's configuration.
pub record Testset (W S : Type 0) : Type 0 where
  pub name : String
  pub time_limit : W
  pub memory_limit : W
  pub real_time_limit : W
  pub builder : VerdictBuilder W
  pub tests : List (Test W S)

module _ {W S : Type 0} where
  -- boxesRequired
  unfoldable pub boxes_required : List (Test W S) → ℕ → ℕ
  boxes_required [] max_boxes = max_boxes
  boxes_required (test ∷ tests) max_boxes = boxes_required tests (max max_boxes test.boxes_required)

  -- the loop of run; `current` is the builder's verdict
  unfoldable pub run_tests :
      VerdictBuilder W
      → String
      → List String
      → Params W
      → List (Test W S)
      → Verdict W
      → Exec S (Verdict W)
  run_tests builder submission_id boxes params [] current = pure current
  run_tests builder submission_id boxes params (test ∷ tests) current = do
    verdict ←
        if builder.can_score_change current
        then test.run submission_id boxes params
        else test.skip submission_id
    run_tests builder submission_id boxes params tests (builder.add_verdict current verdict)

  -- the loop of skip
  unfoldable pub skip_tests :
      VerdictBuilder W → String → List (Test W S) → Verdict W → Exec S (Verdict W)
  skip_tests builder submission_id [] current = pure current
  skip_tests builder submission_id (test ∷ tests) current = do
    verdict ← test.skip submission_id
    skip_tests builder submission_id tests (builder.add_verdict current verdict)

  -- The parameters of run with the limits of the set
  abbrev pub set_limits : Testset W S → Params W → Params W
  set_limits set params = record params {
    time_limit = some set.time_limit;
    memory_limit = some set.memory_limit;
    real_time_limit = some set.real_time_limit;
  }

  -- Testset::run
  unfoldable pub testset_run : Testset W S → String → List String → Params W → Exec S (Verdict W)
  unfolding boxes_required run_tests
  testset_run set submission_id boxes params =
      let limits = set_limits set params in
      if ltb (length boxes) (boxes_required set.tests 0)
      then raise "Not enough boxes provided"
      else run_tests set.builder submission_id boxes limits set.tests (set.builder.clear set.name)

  -- Testset::skip
  unfoldable pub testset_skip : Testset W S → String → Exec S (Verdict W)
  unfolding skip_tests
  testset_skip set submission_id =
      skip_tests set.builder submission_id set.tests (set.builder.clear set.name)

  -- A test set is itself a test.
  unfoldable pub testset_test : Testset W S → Test W S
  unfolding testset_run testset_skip boxes_required
  testset_test set = record {
    name = set.name;
    boxes_required = boxes_required set.tests 0;
    run = testset_run set;
    skip = testset_skip set;
  }
