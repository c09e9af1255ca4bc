-- ===== src/TestNode/SyncResult.antt =====
-- modules/test_node/src/tests/sync_result_test.cpp. The protocol file and the table of submissions
-- are parameters.
use oink_judge.Prelude.{String, Bool, List, length, if◌then◌else◌, string_eq, nat_eq, ltb}
use oink_judge.Prelude.Exec.{Exec, pure, raise, ◌>>=◌, ◌>>◌}
use oink_judge.TestNode.Double.{Double}
use oink_judge.TestNode.Verdict.{Verdict, to_json}
use oink_judge.TestNode.Verdict.Document.{Json}
use oink_judge.TestNode.Test.{Params, Test}

-- The protocol, TableSubmissions::setScore and setVerdictType, which answer whether the statement
-- was executed.
pub record Results (W S : Type 0) : Type 0 where
  pub write_protocol : String → Json W → Exec S Unit
  pub set_score : String → W → Exec S Bool
  pub set_verdict_type : String → String → Exec S Bool

module _ {W S : Type 0} ⦃d : Double W⦄ (results : Results W S) where
  -- The end of run: the verdict is handed to the table, whose answers are dropped.
  unfoldable pub store_verdict : String → Verdict W → Exec S (Verdict W)
  store_verdict submission_id verdict = do
    results.write_protocol submission_id (to_json verdict 2)
    results.set_score submission_id verdict.info.score
    results.set_verdict_type submission_id verdict.info.type.short_name
    pure verdict

  -- SyncResultTest::run
  unfoldable pub sync_result_run : Test W S → String → List String → Params W → Exec S (Verdict W)
  unfolding store_verdict
  sync_result_run test submission_id boxes params =
      if ltb (length boxes) test.boxes_required
      then raise "Not enough boxes provided"
      else (do verdict ← test.run submission_id boxes params; store_verdict submission_id verdict)

  -- SyncResultTest: skip and boxesRequired are those of the test inside.
  abbrev pub sync_result_test : String → Test W S → Test W S
  sync_result_test name test = record {
    name = name;
    boxes_required = test.boxes_required;
    run = sync_result_run test;
    skip = test.skip;
  }
