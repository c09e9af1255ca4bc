-- ===== src/TestNode/Single.antt =====
-- modules/test_node/src/tests/single_test.cpp. The scripts that run a program and its checker, and
-- the files that they write, are parameters. Fewer than two boxes, for which the code reads past
-- the end of the vector, are an error here.
pub mod Sets
use oink_judge.Prelude.{
  ℕ, String, List, ◌==◌, if◌then◌else◌, get_elem?, ok, or_throw, string_eq, nat_eq,
}
use oink_judge.Prelude.Exec.{Exec, lift, ◌>>=◌, ◌>>◌}
use oink_judge.TestNode.Double.{Double}
use oink_judge.TestNode.Verdict.{Kind, Verdict, new_verdict, skipped}
use oink_judge.TestNode.Test.{Params, Test}
use oink_judge.TestNode.Meta.{Numbers, load_verdict_from_meta, load_verdict_from_checker_output}

-- run_in_isolate.sh with its exit code, check.sh, and the meta file and the checker's output.
pub record Sandbox (W S : Type 0) : Type 0 where
  pub run_in_isolate : W → W → W → String → String → Exec S ℕ
  pub check : String → String → String → Exec S Unit
  pub meta_file : S → List (String × String)
  pub checker_err_file : S → List String

-- What the constructor has set.
pub record SingleTest : Type 0 where
  pub name : String
  pub input_path : String
  pub answer_path : String

module _ {W S : Type 0} ⦃d : Double W⦄ (numbers : Numbers W) (sandbox : Sandbox W S)
    (unset : Kind) where
  -- The end of run, by the exit code.
  unfoldable pub single_judge : SingleTest → String → String → ℕ → Exec S (Verdict W)
  single_judge test box_to_run box_to_check rc =
      if rc == 0
      then (sandbox.check test.answer_path box_to_run box_to_check >> judge_output)
      else judge_meta
    where
      judge_output : Exec S (Verdict W)
      judge_output s = (
        load_verdict_from_checker_output numbers unset test.name (sandbox.meta_file s)
            (sandbox.checker_err_file s),
        s,
      )

      judge_meta : Exec S (Verdict W)
      judge_meta s = (load_verdict_from_meta numbers test.name (sandbox.meta_file s), s)

  -- SingleTest::run
  unfoldable pub single_run : SingleTest → String → List String → Params W → Exec S (Verdict W)
  unfolding single_judge
  single_run test submission_id boxes params = do
    box_to_run ← lift (or_throw (get_elem? boxes 0) "out of range")
    box_to_check ← lift (or_throw (get_elem? boxes 1) "out of range")
    time_limit ← lift (or_throw params.time_limit "key not found")
    memory_limit ← lift (or_throw params.memory_limit "key not found")
    real_time_limit ← lift (or_throw params.real_time_limit "key not found")
    rc ← sandbox.run_in_isolate time_limit memory_limit real_time_limit test.input_path box_to_run
    single_judge test box_to_run box_to_check rc

  -- SingleTest::skip
  unfoldable pub single_skip : SingleTest → String → Exec S (Verdict W)
  single_skip test submission_id s = (
    ok (record (new_verdict test.name) {
      info = record {
        type = skipped;
        score = d.nought;
        time_used = d.nought;
        memory_used = d.nought;
        real_time_used = d.nought;
      };
    }),
    s,
  )

  abbrev pub single_test : SingleTest → Test W S
  single_test test = record {
    name = test.name;
    boxes_required = 2;
    run = single_run test;
    skip = single_skip test;
  }
