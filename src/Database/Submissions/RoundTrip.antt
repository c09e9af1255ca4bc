-- ===== src/Database/Submissions/RoundTrip.antt =====
-- What addSubmission writes is what loadSubmissionsByUserAndProblem reads.
use oink_judge.Prelude.{
  ◌++◌, ◌==◌, ◌&&◌, if◌then◌else◌, Bool, false, Option, none, String, true, ◌≡◌, refl, some, List,
  [], ◌∷◌, ok, string_eq,
}
use oink_judge.Prelude.Dict.{lookup}
use oink_judge.Prelude.Integers.{ℤ}
use oink_judge.Database.Queries.{QueryParam, text_param}
use oink_judge.Database.Submissions.{
  or_default, ExecuteOptions, QueryRow, Executor, Reading, SubmissionRow, read_only, block_name,
  fill_execute_options,
}
use oink_judge.Database.Submissions.Operations.{adds}
use oink_judge.Database.Submissions.Names.{params_of}

-- The columns of a row that was inserted
abbrev pub shown :
    {D T : Type 0} → (D → String) → (ℤ → String) → Reading D T → SubmissionRow D T → QueryRow
shown show_score show_time reading row =
    ("id", some row.id)
    ∷ ("username", some row.username)
    ∷ ("problem_id", some row.problem_id)
    ∷ ("language", some row.language)
    ∷ ("verdict_type", some row.verdict_type)
    ∷ ("score", some (show_score row.score))
    ∷ ("send_time", some (show_time (reading.to_time_t row.send_time)))
    ∷ []

-- The column is there and has the text.
abbrev is_text : String → Option (Option String) → Bool
is_text text (some (some other)) = other == text
is_text text _ = false

abbrev pub has_text : String → String → QueryRow → Bool
has_text name text row = is_text text (lookup name row)

-- The rows of a user's submissions to a problem
unfoldable pub rows_of : String → String → List QueryRow → List QueryRow
unfolding lookup
rows_of username problem_id [] = []
rows_of username problem_id (row ∷ rows) =
    let rest = rows_of username problem_id rows in
    if has_text "username" username row && has_text "problem_id" problem_id row
    then row ∷ rest
    else rest

-- What PostgreSQL does with the two statements, for an executor whose execution of them comes to
-- it: an insertion puts a row behind those of the table, with the score and the time as it prints
-- them, and a selection gives the rows of the table for which it asks.
pub record Stores {E D T : Type 0} (reading : Reading D T) (executor : Executor E D) : Type 0 where
  pub table : E → List QueryRow
  pub show_score : D → String
  pub show_time : ℤ → String
  pub inserts :
      (o : ExecuteOptions) (row : SubmissionRow D T) (e e' : E) (result : List QueryRow)
      → executor.execute o "submissions__insert" (params_of reading (adds row)) e ≡ (ok result, e')
      → table e' ≡ table e ++ shown show_score show_time reading row ∷ []
  pub selects :
      (o : ExecuteOptions) (username problem_id : String) (e e' : E) (result : List QueryRow)
      → executor.execute o "submissions__select_by_user_problem"
          (text_param username ∷ text_param problem_id ∷ [])
          e
        ≡ (ok result, e')
      → result ≡ rows_of username problem_id (table e)
  pub stays_prepared :
      (o : ExecuteOptions) (stmt : String) (params : List (QueryParam D)) (e e' : E)
      (result : List QueryRow)
      → executor.is_prepared block_name e ≡ true
      → executor.execute o stmt params e ≡ (ok result, e')
      → executor.is_prepared block_name e' ≡ true

or_default_twice : {A : Type 0} (o d : Option A) → or_default (or_default o d) d ≡ or_default o d
or_default_twice none none = refl
or_default_twice none (some a) = refl
or_default_twice (some a) d = refl

-- Options that are filled stay as they are when they are filled again, as requireInitialized and
-- initialize do.
fill_execute_options_twice :
    (defaults options : ExecuteOptions)
    → fill_execute_options defaults (fill_execute_options defaults options)
      ≡ fill_execute_options defaults options
unfolding fill_execute_options
fill_execute_options_twice defaults options =
    rw
      (
        or_default_twice options.read_only defaults.read_only,
        or_default_twice options.timeout_sec defaults.timeout_sec,
        or_default_twice options.retries defaults.retries,
      )
      refl
