-- ===== src/Database/Submissions/Names.antt =====
-- The one shape of all operations, and the statements that they use.
use mathlib.Core.Path.{fun_ext}
use oink_judge.Prelude.{String, Bool, true, false, ◌≡◌, refl, none, some, List, [], ◌∷◌, string_eq}
use oink_judge.Prelude.Dict.{lookup}
use oink_judge.Prelude.Exec.{Exec}
use oink_judge.Database.Queries.{QueryParam, text_param, double_param, int64_param}
use oink_judge.Database.Statements.{contains}
use oink_judge.Database.Submissions.{
  ExecuteOptions, QueryRow, Executor, Reading, TableExecuteOptions, read_only, require_initialized,
  initialize_table, initialize_unless, unless_prepared, block_name, statements_block,
  fill_execute_options,
}
use oink_judge.Database.Submissions.Operations.{
  Operation, adds, loads, updates_verdict, sets_verdict_type, sets_score, asks_whose, asks_problem,
  asks_language, asks_verdict_type, asks_score, TableAnswer, flag, rows_answer, text_answer,
  score_answer, run_operation,
}

-- The statement of an operation with its parameters, and whether it only reads.
abbrev pub stmt_of : {D T : Type 0} → Operation D T → String
stmt_of (adds row) = "submissions__insert"
stmt_of (loads username problem_id) = "submissions__select_by_user_problem"
stmt_of (updates_verdict id verdict_type score) = "submissions__update_verdict_and_score"
stmt_of (sets_verdict_type id verdict_type) = "submissions__update_verdict_type"
stmt_of (sets_score id score) = "submissions__update_score"
stmt_of (asks_whose id) = "submissions__select_whose"
stmt_of (asks_problem id) = "submissions__select_problem"
stmt_of (asks_language id) = "submissions__select_language"
stmt_of (asks_verdict_type id) = "submissions__select_verdict_type"
stmt_of (asks_score id) = "submissions__select_score"

-- What an operation returns when anything fails.
abbrev pub failure : {D T : Type 0} → Operation D T → TableAnswer D T
failure (adds row) = flag false
failure (loads username problem_id) = rows_answer none
failure (updates_verdict id verdict_type score) = flag false
failure (sets_verdict_type id verdict_type) = flag false
failure (sets_score id score) = flag false
failure (asks_whose id) = text_answer none
failure (asks_problem id) = text_answer none
failure (asks_language id) = text_answer none
failure (asks_verdict_type id) = text_answer none
failure (asks_score id) = score_answer none

stmt_of-contained :
    {D T : Type 0} (op : Operation D T) → contains (stmt_of op) statements_block.statements ≡ true
unfolding statements_block lookup
stmt_of-contained (adds row) = refl
stmt_of-contained (loads username problem_id) = refl
stmt_of-contained (updates_verdict id verdict_type score) = refl
stmt_of-contained (sets_verdict_type id verdict_type) = refl
stmt_of-contained (sets_score id score) = refl
stmt_of-contained (asks_whose id) = refl
stmt_of-contained (asks_problem id) = refl
stmt_of-contained (asks_language id) = refl
stmt_of-contained (asks_verdict_type id) = refl
stmt_of-contained (asks_score id) = refl

module _ {D T : Type 0} (reading : Reading D T) where
  abbrev pub params_of : Operation D T → List (QueryParam D)
  params_of (adds row) =
      text_param row.id
      ∷ text_param row.username
      ∷ text_param row.problem_id
      ∷ text_param row.language
      ∷ text_param row.verdict_type
      ∷ double_param row.score
      ∷ int64_param (reading.to_time_t row.send_time)
      ∷ []
  params_of (loads username problem_id) = text_param username ∷ text_param problem_id ∷ []
  params_of (updates_verdict id verdict_type score) =
      text_param id ∷ text_param verdict_type ∷ double_param score ∷ []
  params_of (sets_verdict_type id verdict_type) = text_param id ∷ text_param verdict_type ∷ []
  params_of (sets_score id score) = text_param id ∷ double_param score ∷ []
  params_of (asks_whose id) = text_param id ∷ []
  params_of (asks_problem id) = text_param id ∷ []
  params_of (asks_language id) = text_param id ∷ []
  params_of (asks_verdict_type id) = text_param id ∷ []
  params_of (asks_score id) = text_param id ∷ []

module _ {E D T : Type 0} (reading : Reading D T) (now : E → T) (defaults : ExecuteOptions)
    (default_executor : Executor E D) where
  -- The options that the executor of the operation gets
  abbrev pub options_for : ExecuteOptions → Operation D T → ExecuteOptions
  options_for options (adds row) = fill_execute_options defaults options
  options_for options (loads username problem_id) =
      read_only (fill_execute_options defaults options)
  options_for options (updates_verdict id verdict_type score) =
      fill_execute_options defaults options
  options_for options (sets_verdict_type id verdict_type) = fill_execute_options defaults options
  options_for options (sets_score id score) = fill_execute_options defaults options
  options_for options (asks_whose id) = read_only (fill_execute_options defaults options)
  options_for options (asks_problem id) = read_only (fill_execute_options defaults options)
  options_for options (asks_language id) = read_only (fill_execute_options defaults options)
  options_for options (asks_verdict_type id) = read_only (fill_execute_options defaults options)
  options_for options (asks_score id) = read_only (fill_execute_options defaults options)

  abbrev pub with_executor : ExecuteOptions → Executor E D → TableExecuteOptions E D
  with_executor options executor = record { execute_options = options; executor = some executor }

  module _ (executor : Executor E D)
      (other : ExecuteOptions → String → List (QueryParam D) → Exec E (List QueryRow)) where
    abbrev changed : Executor E D
    changed = record executor { execute = other }

    unless_prepared-changed :
        (b : Bool) (options : ExecuteOptions) (e : E)
        → unless_prepared defaults default_executor options changed b e
          ≡ unless_prepared defaults default_executor options executor b e
    unless_prepared-changed true options e = refl
    unless_prepared-changed false options e = refl

    initialize_unless-changed :
        (b : Bool) (options : ExecuteOptions) (e : E)
        → initialize_unless defaults default_executor b (options, changed) e
          ≡ initialize_unless defaults default_executor b (options, executor) e
    unfolding initialize_table
    initialize_unless-changed true options e = refl
    initialize_unless-changed false options e =
        unless_prepared-changed (executor.is_prepared block_name e) options e

    require_initialized-changed :
        (options : ExecuteOptions)
        → require_initialized defaults default_executor (options, changed)
          ≡ require_initialized defaults default_executor (options, executor)
    unfolding require_initialized
    require_initialized-changed options =
        fun_ext (λ e. initialize_unless-changed (executor.is_prepared block_name e) options e)

    execute-changed :
        (options : ExecuteOptions) (op : Operation D T)
        → ((o : ExecuteOptions) (stmt : String) (params : List (QueryParam D))
            → contains stmt statements_block.statements ≡ true
            → (e : E) → other o stmt params e ≡ executor.execute o stmt params e)
        → other (options_for options op) (stmt_of op) (params_of reading op)
          ≡ executor.execute (options_for options op) (stmt_of op) (params_of reading op)
    execute-changed options op same =
        fun_ext
          (same (options_for options op) (stmt_of op) (params_of reading op) (stmt_of-contained op))

    -- Two executors differ at most in how they execute statements that are not in the block that
    -- `initialize` prepares. Then every operation returns the same and leaves the same state.
    pub run_operation-prepared :
        (options : ExecuteOptions) (op : Operation D T)
        → ((o : ExecuteOptions) (stmt : String) (params : List (QueryParam D))
            → contains stmt statements_block.statements ≡ true
            → (e : E) → other o stmt params e ≡ executor.execute o stmt params e)
        → run_operation reading now defaults default_executor (with_executor options changed) op
          ≡ run_operation reading now defaults default_executor (with_executor options executor) op
    unfolding run_operation
    run_operation-prepared options (adds row) same =
        rw
          (
            require_initialized-changed (fill_execute_options defaults options),
            execute-changed options (adds row) same,
          )
          refl
    run_operation-prepared options (loads username problem_id) same =
        rw
          (
            require_initialized-changed (fill_execute_options defaults options),
            execute-changed options (loads username problem_id) same,
          )
          refl
    run_operation-prepared options (updates_verdict id verdict_type score) same =
        rw
          (
            require_initialized-changed (fill_execute_options defaults options),
            execute-changed options (updates_verdict id verdict_type score) same,
          )
          refl
    run_operation-prepared options (sets_verdict_type id verdict_type) same =
        rw
          (
            require_initialized-changed (fill_execute_options defaults options),
            execute-changed options (sets_verdict_type id verdict_type) same,
          )
          refl
    run_operation-prepared options (sets_score id score) same =
        rw
          (
            require_initialized-changed (fill_execute_options defaults options),
            execute-changed options (sets_score id score) same,
          )
          refl
    run_operation-prepared options (asks_whose id) same =
        rw
          (
            require_initialized-changed (fill_execute_options defaults options),
            execute-changed options (asks_whose id) same,
          )
          refl
    run_operation-prepared options (asks_problem id) same =
        rw
          (
            require_initialized-changed (fill_execute_options defaults options),
            execute-changed options (asks_problem id) same,
          )
          refl
    run_operation-prepared options (asks_language id) same =
        rw
          (
            require_initialized-changed (fill_execute_options defaults options),
            execute-changed options (asks_language id) same,
          )
          refl
    run_operation-prepared options (asks_verdict_type id) same =
        rw
          (
            require_initialized-changed (fill_execute_options defaults options),
            execute-changed options (asks_verdict_type id) same,
          )
          refl
    run_operation-prepared options (asks_score id) same =
        rw
          (
            require_initialized-changed (fill_execute_options defaults options),
            execute-changed options (asks_score id) same,
          )
          refl
