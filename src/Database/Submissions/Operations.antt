-- ===== src/Database/Submissions/Operations.antt =====
-- modules/database/src/table_submissions.cpp: the operations on the table.
use oink_judge.Prelude.{
  ◌>>=◌ as and_then, String, Bool, true, false, Option, none, some, List, [], ◌∷◌, Outcome, ok,
  string_eq,
}
use oink_judge.Prelude.Exec.{Exec, pure, ◌>>=◌, ◌>>◌}
use oink_judge.Database.Queries.{text_param, double_param, int64_param}
use oink_judge.Database.Submissions.{
  ExecuteOptions, QueryRow, column, first_column, Executor, Reading, SubmissionRow,
  TableExecuteOptions, if_row, read_only, options_of, require_initialized, table_call,
}

module _ {E D T : Type 0} (reading : Reading D T) (now : E → T) (defaults : ExecuteOptions)
    (default_executor : Executor E D) where
  abbrev pub insert_row : SubmissionRow D T → ExecuteOptions → Executor E D → Exec E (Bool)
  insert_row row execute_options executor = do
    executor.execute execute_options "submissions__insert" (
        text_param row.id
        ∷ text_param row.username
        ∷ text_param row.problem_id
        ∷ text_param row.language
        ∷ text_param row.verdict_type
        ∷ double_param row.score
        ∷ int64_param (reading.to_time_t row.send_time)
        ∷ [])
    pure true

  unfoldable pub add_submission : TableExecuteOptions E D → SubmissionRow D T → Exec E Bool
  unfolding options_of require_initialized
  add_submission options row = table_call defaults default_executor options false (insert_row row)

  -- parseTimestamp
  abbrev pub time_or_now : E → Option T → T
  time_or_now e none = now e
  time_or_now e (some time) = time

  -- One turn of the loop of loadSubmissionsByUserAndProblem
  unfoldable pub read_row : QueryRow → E → Outcome (SubmissionRow D T)
  unfolding column
  read_row row e = and_then (column row "id") λ id. and_then (column row "username") λ username.
      and_then (column row "problem_id") λ problem_id. and_then (column row "language") λ language.
        and_then (column row "verdict_type") λ verdict_type.
          and_then (and_then (column row "score") reading.stod) λ score.
            and_then (column row "send_time") λ send_time. ok (record {
              id = id;
              username = username;
              problem_id = problem_id;
              language = language;
              verdict_type = verdict_type;
              score = score;
              send_time = time_or_now e (reading.get_time send_time);
            })

  unfoldable pub read_rows : List QueryRow → Exec E (List (SubmissionRow D T))
  unfolding read_row
  read_rows [] = pure []
  read_rows (row ∷ rows) = do
    submission ← λ e. (read_row row e, e)
    submissions ← read_rows rows
    pure (submission ∷ submissions)

  abbrev pub select_rows :
      String → String → ExecuteOptions → Executor E D → Exec E (Option (List (SubmissionRow D T)))
  select_rows username problem_id execute_options executor = do
    result ←
        executor.execute (read_only execute_options) "submissions__select_by_user_problem"
          (text_param username ∷ text_param problem_id ∷ [])
    rows ← read_rows result
    pure (some rows)

  unfoldable pub load_submissions :
      TableExecuteOptions E D → String → String → Exec E (Option (List (SubmissionRow D T)))
  unfolding options_of require_initialized
  load_submissions options username problem_id =
      table_call defaults default_executor options none (select_rows username problem_id)

  abbrev pub update_both : String → String → D → ExecuteOptions → Executor E D → Exec E (Bool)
  update_both submission_id verdict_type score execute_options executor = do
    executor.execute execute_options "submissions__update_verdict_and_score"
        (text_param submission_id ∷ text_param verdict_type ∷ double_param score ∷ [])
    pure true

  unfoldable pub update_submission_verdict :
      TableExecuteOptions E D → String → String → D → Exec E Bool
  unfolding options_of require_initialized
  update_submission_verdict options submission_id verdict_type score =
      table_call defaults default_executor options false
        (update_both submission_id verdict_type score)

  abbrev pub update_type : String → String → ExecuteOptions → Executor E D → Exec E (Bool)
  update_type submission_id verdict_type execute_options executor = do
    executor.execute execute_options "submissions__update_verdict_type"
        (text_param submission_id ∷ text_param verdict_type ∷ [])
    pure true

  unfoldable pub set_verdict_type : TableExecuteOptions E D → String → String → Exec E Bool
  unfolding options_of require_initialized
  set_verdict_type options submission_id verdict_type =
      table_call defaults default_executor options false (update_type submission_id verdict_type)

  abbrev pub update_score : String → D → ExecuteOptions → Executor E D → Exec E (Bool)
  update_score submission_id score execute_options executor = do
    executor.execute execute_options "submissions__update_score"
        (text_param submission_id ∷ double_param score ∷ [])
    pure true

  unfoldable pub set_score : TableExecuteOptions E D → String → D → Exec E Bool
  unfolding options_of require_initialized
  set_score options submission_id score =
      table_call defaults default_executor options false (update_score submission_id score)

  -- The five queries of one value
  abbrev pub select_value :
      {A : Type 0}
      → (QueryRow → Outcome A)
      → String
      → String
      → ExecuteOptions
      → Executor E D
      → Exec E (Option A)
  select_value read stmt submission_id execute_options executor = do
    result ← executor.execute (read_only execute_options) stmt (text_param submission_id ∷ [])
    if_row read result

  unfoldable pub select_one :
      {A : Type 0}
      → TableExecuteOptions E D
      → (QueryRow → Outcome A)
      → String
      → String
      → Exec E (Option A)
  unfolding options_of require_initialized
  select_one options read stmt submission_id =
      table_call defaults default_executor options none (select_value read stmt submission_id)

  unfoldable pub whose_submission : TableExecuteOptions E D → String → Exec E (Option String)
  unfolding select_one first_column
  whose_submission options id = select_one options first_column "submissions__select_whose" id

  unfoldable pub problem_of_submission : TableExecuteOptions E D → String → Exec E (Option String)
  unfolding select_one first_column
  problem_of_submission options id =
      select_one options first_column "submissions__select_problem" id

  unfoldable pub language_of_submission : TableExecuteOptions E D → String → Exec E (Option String)
  unfolding select_one first_column
  language_of_submission options id =
      select_one options first_column "submissions__select_language" id

  unfoldable pub verdict_type_of_submission :
      TableExecuteOptions E D → String → Exec E (Option String)
  unfolding select_one first_column
  verdict_type_of_submission options id =
      select_one options first_column "submissions__select_verdict_type" id

  abbrev pub first_score : QueryRow → Outcome D
  first_score row = and_then (first_column row) reading.stod

  unfoldable pub score_of_submission : TableExecuteOptions E D → String → Exec E (Option D)
  unfolding select_one first_column
  score_of_submission options id = select_one options first_score "submissions__select_score" id

-- The public operations with their arguments, and what they return.
pub data Operation (D T : Type 0) : Type 0 where
  adds : SubmissionRow D T → Operation D T
  loads : String → String → Operation D T
  updates_verdict : String → String → D → Operation D T
  sets_verdict_type : String → String → Operation D T
  sets_score : String → D → Operation D T
  asks_whose asks_problem asks_language asks_verdict_type asks_score : String → Operation D T

pub data TableAnswer (D T : Type 0) : Type 0 where
  flag : Bool → TableAnswer D T
  rows_answer : Option (List (SubmissionRow D T)) → TableAnswer D T
  text_answer : Option String → TableAnswer D T
  score_answer : Option D → TableAnswer D T

module _ {E D T : Type 0} (reading : Reading D T) (now : E → T) (defaults : ExecuteOptions)
    (default_executor : Executor E D) where
  abbrev pub answered : {A : Type 0} → (A → TableAnswer D T) → Exec E A → Exec E (TableAnswer D T)
  answered f call = do a ← call; pure (f a)

  unfoldable pub run_operation : TableExecuteOptions E D → Operation D T → Exec E (TableAnswer D T)
  unfolding add_submission load_submissions update_submission_verdict set_verdict_type set_score
      whose_submission problem_of_submission language_of_submission verdict_type_of_submission
      score_of_submission
  run_operation options (adds row) =
      answered flag (add_submission reading now defaults default_executor options row)
  run_operation options (loads username problem_id) =
      answered rows_answer
        (load_submissions reading now defaults default_executor options username problem_id)
  run_operation options (updates_verdict id verdict_type score) = answered flag (
      update_submission_verdict reading now defaults default_executor options id verdict_type score)
  run_operation options (sets_verdict_type id verdict_type) =
      answered flag (set_verdict_type reading now defaults default_executor options id verdict_type)
  run_operation options (sets_score id score) =
      answered flag (set_score reading now defaults default_executor options id score)
  run_operation options (asks_whose id) =
      answered text_answer (whose_submission reading now defaults default_executor options id)
  run_operation options (asks_problem id) =
      answered text_answer (problem_of_submission reading now defaults default_executor options id)
  run_operation options (asks_language id) =
      answered text_answer (language_of_submission reading now defaults default_executor options id)
  run_operation options (asks_verdict_type id) =
      answered text_answer
        (verdict_type_of_submission reading now defaults default_executor options id)
  run_operation options (asks_score id) =
      answered score_answer (score_of_submission reading now defaults default_executor options id)
