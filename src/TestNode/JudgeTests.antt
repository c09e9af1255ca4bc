-- ===== src/TestNode/JudgeTests.antt =====
-- A program in a small sandbox, and the theorems at such inputs. The state is the log of the
-- calls, or the table of submissions.
use mathlib.Core.Bool.{false≢true}
use oink_judge.Prelude.{
  true, ℕ, String, ◌≡◌, ◌≢◌, refl, some, none, List, [], ◌∷◌, map, Outcome, ok, string_eq, nat_eq,
  eq_iff,
}
use oink_judge.Prelude.Dict.{insert}
use oink_judge.Prelude.Integers.{pos}
use oink_judge.TestNode.Double.{number_double}
use oink_judge.TestNode.Verdict.{failed_t, Verdict, wrong_answer, sum_builder}
use oink_judge.TestNode.Verdict.Document.{end}
use oink_judge.TestNode.Test.{Test}
use oink_judge.TestNode.Testset.{Testset}
use oink_judge.TestNode.Meta.{
  Numbers, MetaInfo, parse_meta_file, type_of_line, measured, load_verdict_from_checker_output,
}
use oink_judge.TestNode.Meta.Verdicts.{load_verdict_from_checker_output-last}
use oink_judge.TestNode.Single.{Sandbox, SingleTest, single_test}
use oink_judge.TestNode.Single.Sets.{}
use oink_judge.TestNode.SyncResult.{Results}

abbrev fixed_numbers : Numbers ℕ
fixed_numbers = record { stod = λ s. ok 1; stoi = λ s. ok (pos 5); to_double = λ n. 5 }

abbrev good_meta : List (String × String)
good_meta = ("time", "0.01") ∷ ("max-rss", "512") ∷ []

abbrev bad_meta : List (String × String)
bad_meta = ("status", "RE") ∷ good_meta

abbrev info_of : String → MetaInfo ℕ
info_of status = record {
  status = status;
  time = some 1;
  max_rss = some (pos 5);
  exit_code = none;
  exit_signal = none;
}

load_verdict_from_checker_output-last_example :
    load_verdict_from_checker_output fixed_numbers failed_t "1" good_meta ("wrong" ∷ "ok" ∷ [])
    ≡ measured fixed_numbers "1" (info_of "OK") (type_of_line "ok") 100
unfolding parse_meta_file
load_verdict_from_checker_output-last_example =
    load_verdict_from_checker_output-last fixed_numbers failed_t "1" good_meta (info_of "OK")
      ("wrong" ∷ []) "ok" refl refl

status_is_bad : (info_of "RE").status ≢ "OK"
status_is_bad = λ e. false≢true ((eq_iff "RE" "OK").1 e)

abbrev logging_sandbox : Sandbox ℕ (List String)
logging_sandbox = record {
  run_in_isolate = λ t m r input box s. (ok 0, "run" ∷ s);
  check = λ answer run check s. (ok tt, "check" ∷ s);
  meta_file = λ s. good_meta;
  checker_err_file = λ s. "ok" ∷ [];
}

abbrev one_single : SingleTest
one_single = record { name = "1"; input_path = "01"; answer_path = "01.a" }

abbrev set_of_one : Testset ℕ (List String)
set_of_one = record {
  name = "main";
  time_limit = 1;
  memory_limit = 64;
  real_time_limit = 5;
  builder = sum_builder;
  tests = map (single_test fixed_numbers logging_sandbox failed_t) (one_single ∷ []);
}

-- The scores and the types of the submissions.
abbrev Table : Type 0
Table = List (String × ℕ) × List (String × String)

abbrev table_results : Results ℕ Table
table_results = record {
  write_protocol = λ id j s. (ok tt, s);
  set_score = λ id w s. (ok true, (insert id w s.0, s.1));
  set_verdict_type = λ id t s. (ok true, (s.0, insert id t s.1));
}

abbrev half_right : Verdict ℕ
half_right = record {
  test_name = "main";
  info = record {
    type = wrong_answer;
    score = 50;
    time_used = 1;
    memory_used = 2;
    real_time_used = 3;
  };
  additional_info = end;
}

abbrev test_giving : Outcome (Verdict ℕ) → Test ℕ Table
test_giving result = record {
  name = "main";
  boxes_required = 2;
  run = λ submission_id boxes params s. (result, s);
  skip = λ submission_id s. (result, s);
}
