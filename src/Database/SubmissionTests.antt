-- ===== src/Database/SubmissionTests.antt =====
-- A table of one row, and the theorems on the submissions at such inputs.
use oink_judge.Prelude.{
  ◌++◌, String, Bool, true, false, ◌≡◌, refl, sym, ap, Option, none, some, List, [], ◌∷◌, inl, inr,
  Bool-cases, eq_iff, if◌then◌else◌, ok, thrown, string_eq, ◌==◌, arith,
}
use oink_judge.Prelude.Integers.{ℤ, pos}
use oink_judge.Prelude.Texts.{split_at}
use oink_judge.Prelude.Exec.{Exec}
use oink_judge.Prelude.Dict.{lookup}
use oink_judge.Database.Statements.{contains}
use oink_judge.Database.Queries.{
  QueryParam, null_param, bool_param, int32_param, int64_param, double_param, text_param,
}
use oink_judge.Database.Submissions.{
  ExecuteOptions, QueryRow, Executor, Reading, SubmissionRow, statements_block, require_initialized,
  fill_execute_options,
}
use oink_judge.Database.Submissions.Operations.{adds, asks_score, run_operation}
use oink_judge.Database.Submissions.Names.{with_executor, run_operation-prepared, params_of}
use oink_judge.Database.Submissions.RoundTrip.{rows_of, Stores}

record Table : Type 0 where
  ready : Bool
  stored : List QueryRow

-- The table keeps three digits of a score.
abbrev rounded : String → String
rounded score = (split_at 3 score).0

abbrev text_of : QueryParam String → Option String
text_of null_param = none
text_of (bool_param b) = some "bool"
text_of (int32_param n) = some "12:00"
text_of (int64_param n) = some "12:00"
text_of (double_param d) = some (rounded d)
text_of (text_param t) = some t

abbrev named : List String → List (QueryParam String) → QueryRow
named [] params = []
named (name ∷ names) [] = []
named (name ∷ names) (param ∷ params) = (name, text_of param) ∷ named names params

abbrev columns : List String
columns =
    "id" ∷ "username" ∷ "problem_id" ∷ "language" ∷ "verdict_type" ∷ "score" ∷ "send_time" ∷ []

abbrev selected : List (QueryParam String) → List QueryRow → List QueryRow
selected (text_param username ∷ text_param problem_id ∷ []) rows = rows_of username problem_id rows
selected params rows = []

abbrev run_stmt : String → List (QueryParam String) → Exec Table (List QueryRow)
run_stmt stmt params table =
    if stmt == "submissions__insert"
    then (ok [], record table { stored = table.stored ++ named columns params ∷ [] })
    else if stmt == "submissions__select_by_user_problem"
    then (ok (selected params table.stored), table)
    else (thrown "no such statement", table)

abbrev one_row : Executor Table String
one_row = record {
  is_prepared = λ name table. table.ready;
  execute_sql = λ options sql params table. (ok [], table);
  execute = λ options stmt params table. run_stmt stmt params table;
  prepare_block = λ block table. (ok tt, record table { ready = true });
}

abbrev broken : Executor Table String
broken = record one_row { execute_sql = λ options sql params table. (thrown "down", table) }

abbrev plain_reading : Reading String ℤ
plain_reading = record {
  stod = λ text. ok text;
  get_time = λ text. some (pos 5);
  to_time_t = λ time. time;
}

abbrev at_noon : Table → ℤ
at_noon table = pos 0

abbrev no_defaults : ExecuteOptions
no_defaults = record { read_only = some false; timeout_sec = some (pos 0); retries = some (pos 0) }

abbrev empty_table : Table
empty_table = record { ready = true; stored = [] }

abbrev new_table : Table
new_table = record { ready = false; stored = [] }

abbrev submission : SubmissionRow String ℤ
submission = record {
  id = "s1";
  username = "ann";
  problem_id = "sum";
  language = "cpp";
  verdict_type = "OK";
  score = "1004";
  send_time = pos 5;
}

stored_ready :
    (stmt : String) (table : Table) (params : List (QueryParam String)) (result : List QueryRow)
    (table' : Table)
    → run_stmt stmt params table ≡ (ok result, table')
    → table.ready ≡ true
    → table'.ready ≡ true
stored_ready stmt table params result table' h r = ground arith

inserted_rows :
    (table : Table) (params : List (QueryParam String)) (result : List QueryRow) (table' : Table)
    → run_stmt "submissions__insert" params table ≡ (ok result, table')
    → table'.stored ≡ table.stored ++ named columns params ∷ []
inserted_rows table params result table' h = sym (ap (λ p. p.1.stored) h)

selected_rows :
    (table table' : Table) (username problem_id : String) (result : List QueryRow)
    → run_stmt "submissions__select_by_user_problem"
        (text_param username ∷ text_param problem_id ∷ [])
        table
      ≡ (ok result, table')
    → result ≡ rows_of username problem_id table.stored
selected_rows table table' username problem_id result h = ground (arith, ap (λ p. p.0) h)

abbrev one_row_stores : Stores plain_reading one_row
one_row_stores = record {
  table = λ table. table.stored;
  show_score = λ score. rounded score;
  show_time = λ time. "12:00";
  inserts = λ o row table table' result inserted.
      inserted_rows table (params_of plain_reading (adds row)) result table' inserted;
  selects = λ o username problem_id table table' result found.
      selected_rows table table' username problem_id result found;
  stays_prepared = λ o stmt params table table' result r inserted.
      stored_ready stmt table params result table' inserted r;
}

abbrev row_of_bob : QueryRow
row_of_bob = named columns (params_of plain_reading (adds (record submission { username = "bob" })))

abbrev table_before : Table
table_before = record { ready = true; stored = row_of_bob ∷ [] }

abbrev table_after : Table
table_after = record {
  ready = true;
  stored = row_of_bob ∷ named columns (params_of plain_reading (adds submission)) ∷ [];
}

refused_run :
    require_initialized no_defaults broken
      (fill_execute_options no_defaults no_defaults, broken)
      new_table
    ≡ (ok false, new_table)
unfolding require_initialized
refused_run = refl

-- Like `run_stmt`, but it refuses one more statement, which the table has not prepared.
abbrev stricter : ExecuteOptions → String → List (QueryParam String) → Exec Table (List QueryRow)
stricter options stmt params table =
    if stmt == "submissions__drop"
    then (thrown "never", record table { ready = false })
    else run_stmt stmt params table

drop_absent : contains "submissions__drop" statements_block.statements ≡ false
unfolding statements_block lookup
drop_absent = refl

present_absent :
    (stmt : String)
    → stmt ≡ "submissions__drop"
    → contains stmt statements_block.statements ≡ true
    → ⊥
present_absent stmt e h =
    let same = ap (λ name. contains name statements_block.statements) e in cc (same, h, drop_absent)

stricter_run :
    (o : ExecuteOptions) (stmt : String) (params : List (QueryParam String))
    → contains stmt statements_block.statements ≡ true
    → (table : Table) → stricter o stmt params table ≡ run_stmt stmt params table
stricter_run o stmt params h table = elim (Bool-cases (stmt == "submissions__drop")) [
  | inl e ↦ absurd (present_absent stmt ((eq_iff stmt "submissions__drop").0 e) h)
  | inr e ↦ rw e refl
]

run_operation-prepared_example :
    run_operation plain_reading at_noon no_defaults broken
      (with_executor plain_reading at_noon no_defaults broken no_defaults
        (record one_row { execute = stricter }))
      (asks_score "s1")
    ≡ run_operation plain_reading at_noon no_defaults broken
        (with_executor plain_reading at_noon no_defaults broken no_defaults one_row)
        (asks_score "s1")
run_operation-prepared_example =
    run_operation-prepared plain_reading at_noon no_defaults broken one_row stricter no_defaults
      (asks_score "s1") stricter_run
