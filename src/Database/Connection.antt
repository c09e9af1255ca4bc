-- ===== src/Database/Connection.antt =====
-- modules/database/src/libpq_connection.cpp: syncStatements, while it holds the execution queue of
-- the connection. `S` is the session at the server.
pub mod Sync
use oink_judge.Prelude.{ℕ, zero, suc, String, Bool, List, [], ◌∷◌, string_eq}
use oink_judge.Prelude.Dict.{insert, erase}
use oink_judge.Prelude.Exec.{Exec, pure, update, ◌>>=◌, ◌>>◌}
use oink_judge.Database.Statements.{
  Statement, StatementAction, NameSet, prepare, unprepare, contains,
}

-- The exchanges with the server: PQsendPrepare and PQsendQuery of DEALLOCATE, with their results.
pub record Libpq (S : Type 0) : Type 0 where
  pub send_prepare : String → String → Exec S Unit
  pub send_deallocate : String → Exec S Unit

-- LibpqConnection: the fields that syncStatements uses.
pub record Connection (S : Type 0) : Type 0 where
  pub statement_cursor : ℕ
  pub prepared_blocks : NameSet
  pub session : S

-- The actions from the cursor on.
abbrev pub from : ℕ → List StatementAction → List StatementAction
from n [] = []
from zero (action ∷ actions) = action ∷ actions
from (suc n) (action ∷ actions) = from n actions

module _ {S : Type 0} (libpq : Libpq S) where
  -- A call on the session of the connection.
  abbrev on_session : Exec S Unit → Exec (Connection S) Unit
  on_session call c = let (r, s) = call c.session in (r, record c { session = s })

  -- prepareAsync, unprepareAsync
  unfoldable pub prepare_async : String → String → Exec (Connection S) Unit
  prepare_async name sql = on_session (libpq.send_prepare name sql)

  unfoldable pub unprepare_async : String → Exec (Connection S) Unit
  unprepare_async name = on_session (libpq.send_deallocate name)

  -- The two loops over the statements of a block.
  unfoldable pub prepare_all : List (String × Statement) → Exec (Connection S) Unit
  unfolding prepare_async
  prepare_all [] = pure tt
  prepare_all ((name, statement) ∷ statements) = do
    prepare_async name statement.sql
    prepare_all statements

  unfoldable pub unprepare_all : List (String × Statement) → Exec (Connection S) Unit
  unfolding unprepare_async
  unprepare_all [] = pure tt
  unprepare_all ((name, statement) ∷ statements) = do unprepare_async name; unprepare_all statements

  -- One turn of the loop of syncStatements.
  unfoldable pub sync_action : StatementAction → Exec (Connection S) Unit
  unfolding prepare_all unprepare_all
  sync_action action = elim action.type [
    | prepare ↦ do
      prepare_all action.block.statements
      update (λ c. record c {
        prepared_blocks = insert action.block.block_name tt c.prepared_blocks;
        statement_cursor = suc c.statement_cursor;
      })
    | unprepare ↦ do
      unprepare_all action.block.statements
      update (λ c. record c {
        prepared_blocks = erase action.block.block_name c.prepared_blocks;
        statement_cursor = suc c.statement_cursor;
      })
  ]

  unfoldable pub sync_rest : List StatementAction → Exec (Connection S) Unit
  sync_rest [] = pure tt
  sync_rest (action ∷ rest) = do sync_action action; sync_rest rest

  -- syncStatements, while it holds the execution queue
  unfoldable pub sync_statements : List StatementAction → Exec (Connection S) Unit
  unfolding sync_rest
  sync_statements actions c = sync_rest (from c.statement_cursor actions) c

-- isPrepared
unfoldable pub is_prepared : {S : Type 0} → Connection S → String → Bool
is_prepared c block_name = contains block_name c.prepared_blocks
