-- ===== src/Database/Submissions.antt =====
-- modules/database/src/table_submissions.cpp and execute_options.cpp. `E` is the state behind the
-- executors, the database included; the interface DatabaseExecutorInterface is a record of calls.
pub mod Operations
pub mod Names
pub mod RoundTrip
use oink_judge.Prelude.{
  String, Bool, true, false, Option, none, some, List, [], ◌∷◌, Outcome, ok, thrown, string_eq,
}
use oink_judge.Prelude.Dict.{lookup, insert}
use oink_judge.Prelude.Integers.{ℤ}
use oink_judge.Prelude.Exec.{Exec, pure, lift, ◌>>=◌, ◌>>◌}
use oink_judge.Database.Statements.{Statement, StatementsBlock, add_statement}
use oink_judge.Database.Queries.{QueryParam}

pub record ExecuteOptions : Type 0 where
  pub read_only : Option Bool
  pub timeout_sec : Option ℤ
  pub retries : Option ℤ

abbrev pub or_default : {A : Type 0} → Option A → Option A → Option A
or_default none value = value
or_default (some a) value = some a

-- ExecuteOptions::fillWithDefaults
unfoldable pub fill_execute_options : ExecuteOptions → ExecuteOptions → ExecuteOptions
fill_execute_options defaults options = record {
  read_only = or_default options.read_only defaults.read_only;
  timeout_sec = or_default options.timeout_sec defaults.timeout_sec;
  retries = or_default options.retries defaults.retries;
}

-- `execute_options.read_only = true`
abbrev pub read_only : ExecuteOptions → ExecuteOptions
read_only options = record options { read_only = some true }

-- A row of a result: the texts of its columns by name, `none` for a null.
abbrev pub QueryRow : Type 0
QueryRow = List (String × Option String)

-- QueryField::as<std::string>
abbrev pub as_text : Option String → Outcome String
as_text none = thrown "null value cannot be converted to string"
as_text (some text) = ok text

-- QueryRow::operator[] by name, and as<std::string> of the field
abbrev pub column_text : Option (Option String) → Outcome String
column_text none = thrown "column not found: "
column_text (some value) = as_text value

unfoldable pub column : QueryRow → String → Outcome String
unfolding lookup
column row name = column_text (lookup name row)

-- `row[0].as<std::string>()`: libpq calls a value out of range null.
unfoldable pub first_column : QueryRow → Outcome String
first_column [] = as_text none
first_column ((name, value) ∷ row) = as_text value

-- DatabaseExecutorInterface
pub record Executor (E D : Type 0) : Type 0 where
  pub is_prepared : String → E → Bool
  pub execute_sql : ExecuteOptions → String → List (QueryParam D) → Exec E (List QueryRow)
  pub execute : ExecuteOptions → String → List (QueryParam D) → Exec E (List QueryRow)
  pub prepare_block : StatementsBlock → Exec E Unit

-- The parts of the standard library that read texts, and clocks: std::stod, std::get_time with
-- std::mktime, and to_time_t.
pub record Reading (D T : Type 0) : Type 0 where
  pub stod : String → Outcome D
  pub get_time : String → Option T
  pub to_time_t : T → ℤ

pub record SubmissionRow (D T : Type 0) : Type 0 where
  pub id : String
  pub username : String
  pub problem_id : String
  pub language : String
  pub verdict_type : String
  pub score : D
  pub send_time : T

-- TableExecuteOptions: `none` is the null pointer.
pub record TableExecuteOptions (E D : Type 0) : Type 0 where
  pub execute_options : ExecuteOptions
  pub executor : Option (Executor E D)

abbrev pub block_name : String
block_name = "table_submissions__initialize"

abbrev pub statement : String → String → Statement
statement name sql = record { name = name; sql = sql }

abbrev pub create_sql : String
create_sql =
    "CREATE TABLE IF NOT EXISTS submissions (id TEXT PRIMARY KEY,username TEXT,problem_id TEXT,language TEXT,verdict_type TEXT,score REAL,send_time TIMESTAMP WITHOUT TIME ZONE DEFAULT CURRENT_TIMESTAMP);"

-- `statements_block` of initialize
unfoldable pub statements_block : StatementsBlock
unfolding add_statement insert
statements_block =
    add_statement
      (statement "submissions__update_verdict_and_score"
        "UPDATE submissions SET verdict_type = $2, score = $3 WHERE id = $1")
      (add_statement
        (statement "submissions__update_score" "UPDATE submissions SET score = $2 WHERE id = $1")
        (add_statement
          (statement "submissions__update_verdict_type"
            "UPDATE submissions SET verdict_type = $2 WHERE id = $1")
          (add_statement
            (statement "submissions__insert"
              "INSERT INTO submissions (id, username, problem_id, language, verdict_type, score, send_time) VALUES ($1, $2, $3, $4, $5, $6, to_timestamp($7))")
            (add_statement
              (statement "submissions__select_by_user_problem"
                "SELECT id, username, problem_id, language, verdict_type, score, send_time FROM submissions WHERE username = $1 AND problem_id = $2 ORDER BY send_time DESC")
              (add_statement
                (statement "submissions__select_score"
                  "SELECT score FROM submissions WHERE id = $1")
                (add_statement
                  (statement "submissions__select_verdict_type"
                    "SELECT verdict_type FROM submissions WHERE id = $1")
                  (add_statement
                    (statement "submissions__select_language"
                      "SELECT language FROM submissions WHERE id = $1")
                    (add_statement
                      (statement "submissions__select_problem"
                        "SELECT problem_id FROM submissions WHERE id = $1")
                      (add_statement
                        (statement "submissions__select_whose"
                          "SELECT username FROM submissions WHERE id = $1")
                        (record { block_name = block_name; statements = [] }))))))))))

-- `try { ... } catch (...) { co_return value; }`
abbrev pub caught : {E A : Type 0} → A → Outcome A × E → Outcome A × E
caught value (ok a, e) = (ok a, e)
caught value (thrown what, e) = (ok value, e)

abbrev pub try_or : {E A : Type 0} → A → Exec E A → Exec E A
try_or value body e = caught value (body e)

-- `if (!co_await requireInitialized(options)) co_return value;`
abbrev pub if_ready : {E A : Type 0} → A → Exec E A → Bool → Exec E A
if_ready value body true = body
if_ready value body false = pure value

abbrev pub if_row : {E A : Type 0} → (QueryRow → Outcome A) → List QueryRow → Exec E (Option A)
if_row read [] = pure none
if_row read (row ∷ rows) = do a ← lift (read row); pure (some a)

module _ {E D : Type 0} (defaults : ExecuteOptions) (default_executor : Executor E D) where
  -- TableExecuteOptions::fillWithDefaults
  abbrev pub executor_or : Option (Executor E D) → Executor E D
  executor_or none = default_executor
  executor_or (some executor) = executor

  unfoldable pub options_of : TableExecuteOptions E D → ExecuteOptions × Executor E D
  unfolding fill_execute_options
  options_of options =
      (fill_execute_options defaults options.execute_options, executor_or options.executor)

  abbrev pub no_options : TableExecuteOptions E D
  no_options = record {
    execute_options = record { read_only = none; timeout_sec = none; retries = none };
    executor = none;
  }

  abbrev pub create_table : ExecuteOptions → Executor E D → Exec E Bool
  create_table options executor = do
    executor.execute_sql options create_sql []
    executor.prepare_block statements_block
    pure true

  abbrev pub unless_prepared : ExecuteOptions → Executor E D → Bool → Exec E Bool
  unless_prepared options executor true = pure true
  unless_prepared options executor false = try_or false (create_table options executor)

  -- initialize, behind fillWithDefaults
  unfoldable pub initialize_table : ExecuteOptions × Executor E D → Exec E Bool
  initialize_table (options, executor) e =
      unless_prepared options executor (executor.is_prepared block_name e) e

  abbrev pub initialize_unless : Bool → ExecuteOptions × Executor E D → Exec E Bool
  initialize_unless true filled = pure true
  initialize_unless false filled = initialize_table filled

  unfoldable pub require_initialized : ExecuteOptions × Executor E D → Exec E Bool
  unfolding initialize_table
  require_initialized (options, executor) e =
      initialize_unless (executor.is_prepared block_name e) (options, executor) e

  -- The frame of every operation. The options are filled once: being filled again, in
  -- requireInitialized and in initialize, does not change them.
  abbrev pub table_call :
      {A : Type 0}
      → TableExecuteOptions E D
      → A
      → (ExecuteOptions → Executor E D → Exec E A)
      → Exec E A
  table_call options value body =
      let (execute_options, executor) = options_of options in
      do
        ready ← require_initialized (execute_options, executor)
        if_ready value (try_or value (body execute_options executor)) ready
