-- ===== src/Database/Connection/Sync.antt =====
-- libpq_connection.cpp and statement_action_log.cpp: what a connection has prepared, whatever the
-- server answers.
use mathlib.Core.List.{append_assoc, append-nil}
use mathlib.Core.Path.{subst}
use oink_judge.Prelude.{
  suc, String, false, ◌≡◌, refl, sym, ap, ◌∙◌, List, [], ◌∷◌, ◌++◌, length, ok, thrown, Reply,
  string_eq, arith, length-append,
}
use oink_judge.Prelude.Dict.{insert, erase}
use oink_judge.Prelude.Exec.{Exec, continue, update}
use oink_judge.Database.Statements.{
  Statement, StatementsBlock, StatementActionType, prepare, unprepare, StatementAction,
  StatementActionLog,
}
use oink_judge.Database.Statements.Recorded.{
  after_actions, IsRecorded, foldl-append, contains-insert, contains-erase,
}
use oink_judge.Database.Connection.{
  Libpq, Connection, from, prepare_all, unprepare_all, prepare_async, unprepare_async, sync_action,
  sync_rest, sync_statements, is_prepared,
}

-- The connection has carried out a part of the actions from the start: its cursor counts them, and
-- the blocks that it takes for prepared are those that they leave prepared.
abbrev pub InStep : {S : Type 0} → Connection S → List StatementAction → Type 0
InStep c done =
    (c.statement_cursor ≡ length done)
    × ((name : String) → is_prepared c name ≡ after_actions name done)

from-append : (xs ys : List StatementAction) → from (length xs) (xs ++ ys) ≡ ys
from-append [] [] = refl
from-append [] (y ∷ ys) = refl
from-append (x ∷ xs) ys = from-append xs ys

module _ {S : Type 0} where
  -- Only the session has changed.
  abbrev Kept : Connection S → Connection S → Type 0
  Kept c c' = (c'.statement_cursor ≡ c.statement_cursor) × (c'.prepared_blocks ≡ c.prepared_blocks)

  continue-Kept :
      (k : Exec (Connection S) Unit)
      → ((c : Connection S) → Kept c (k c).1)
      → (r : Reply) (c c' : Connection S) → Kept c c'
      → Kept c (continue r (λ _. k) c').1
  continue-Kept k h (ok x) c c' (p, q) = ((h c').0 ∙ p, (h c').1 ∙ q)
  continue-Kept k h (thrown e) c c' p = p

  InStep-Kept :
      (c c' : Connection S) (done : List StatementAction)
      → Kept c c'
      → InStep c done
      → InStep c' done
  unfolding is_prepared
  InStep-Kept c c' done (p, q) (n, m) = (p ∙ n, λ name. rw q (m name))

  -- The state after one action, or after its throw.
  abbrev Step : List StatementAction → StatementAction → Reply → Connection S → Type 0
  Step done action (ok _) c = InStep c (done ++ action ∷ [])
  Step done action (thrown e) c = InStep c done

  -- After syncStatements returns, the connection has carried out all the actions; after it throws,
  -- the actions up to some point.
  abbrev pub IsSynced : List StatementAction → Reply → Connection S → Type 0
  IsSynced actions (ok _) c = InStep c actions
  IsSynced actions (thrown e) c =
      (done : List StatementAction) × (rest : List StatementAction) × (actions ≡ done ++ rest)
      × InStep c done

  update-Step :
      (done : List StatementAction) (action : StatementAction) (f : Connection S → Connection S)
      → ((c : Connection S) → InStep c done → InStep (f c) (done ++ action ∷ []))
      → (r : Reply) (c c' : Connection S) → Kept c c'
      → InStep c done
      → Step done action (continue r (λ _. update f) c').0 (continue r (λ _. update f) c').1
  update-Step done action f h (ok x) c c' k i = h c' (InStep-Kept c c' done k i)
  update-Step done action f h (thrown e) c c' k i = InStep-Kept c c' done k i

module _ {S : Type 0} (libpq : Libpq S) where
  prepare_all-Kept :
      (statements : List (String × Statement)) (c : Connection S)
      → Kept c (prepare_all libpq statements c).1
  unfolding prepare_all prepare_async
  prepare_all-Kept [] c = (refl, refl)
  prepare_all-Kept ((name, statement) ∷ statements) c =
      continue-Kept (prepare_all libpq statements) (prepare_all-Kept statements) _ c _ (refl, refl)

  unprepare_all-Kept :
      (statements : List (String × Statement)) (c : Connection S)
      → Kept c (unprepare_all libpq statements c).1
  unfolding unprepare_all unprepare_async
  unprepare_all-Kept [] c = (refl, refl)
  unprepare_all-Kept ((name, statement) ∷ statements) c =
      continue-Kept (unprepare_all libpq statements) (unprepare_all-Kept statements) _ c _
        (refl, refl)

  done_prepare :
      (done : List StatementAction) (action : StatementAction) (c : Connection S)
      → action.type ≡ prepare
      → InStep c done
      → InStep
          (record c {
            prepared_blocks = insert action.block.block_name tt c.prepared_blocks;
            statement_cursor = suc c.statement_cursor;
          })
          (done ++ action ∷ [])
  unfolding is_prepared
  done_prepare done action c t (n, m) = (
    omega (arith, length-append done (action ∷ [])),
    (λ name.
        rw
          (
            foldl-append name false done (action ∷ []),
            contains-insert action.block.block_name name tt c.prepared_blocks,
            t,
          )
          (ground (arith, m name))),
  )

  done_unprepare :
      (done : List StatementAction) (action : StatementAction) (c : Connection S)
      → action.type ≡ unprepare
      → InStep c done
      → InStep
          (record c {
            prepared_blocks = erase action.block.block_name c.prepared_blocks;
            statement_cursor = suc c.statement_cursor;
          })
          (done ++ action ∷ [])
  unfolding is_prepared
  done_unprepare done action c t (n, m) = (
    omega (arith, length-append done (action ∷ [])),
    (λ name.
        rw
          (
            foldl-append name false done (action ∷ []),
            contains-erase action.block.block_name name c.prepared_blocks,
            t,
          )
          (ground (arith, m name))),
  )

  sync_typed-Step :
      (done : List StatementAction) (type : StatementActionType) (block : StatementsBlock)
      (c : Connection S)
      → InStep c done
      → Step done
          (record { type = type; block = block })
          (sync_action libpq (record { type = type; block = block }) c).0
          (sync_action libpq (record { type = type; block = block }) c).1
  unfolding sync_action
  sync_typed-Step done prepare block c i =
      update-Step done (record { type = prepare; block = block }) _
        (λ c' i'. done_prepare done (record { type = prepare; block = block }) c' refl i') _ c _
        (prepare_all-Kept block.statements c) i
  sync_typed-Step done unprepare block c i =
      update-Step done (record { type = unprepare; block = block }) _
        (λ c' i'. done_unprepare done (record { type = unprepare; block = block }) c' refl i') _ c _
        (unprepare_all-Kept block.statements c) i

  sync_action-Step :
      (done : List StatementAction) (action : StatementAction) (c : Connection S)
      → InStep c done
      → Step done action (sync_action libpq action c).0 (sync_action libpq action c).1
  sync_action-Step done action c i = sync_typed-Step done action.type action.block c i

  continue-Synced :
      (done : List StatementAction) (action : StatementAction) (rest : List StatementAction)
      → ((c : Connection S)
          → InStep c (done ++ action ∷ [])
          → IsSynced
              ((done ++ action ∷ []) ++ rest)
              (sync_rest libpq rest c).0
              (sync_rest libpq rest c).1)
      → (r : Reply) (c : Connection S) → Step done action r c
      → IsSynced
          (done ++ (action ∷ rest))
          (continue r (λ _. sync_rest libpq rest) c).0
          (continue r (λ _. sync_rest libpq rest) c).1
  continue-Synced done action rest h (ok _) c i =
      subst (λ actions. IsSynced actions (sync_rest libpq rest c).0 (sync_rest libpq rest c).1)
        (append_assoc done (action ∷ []) rest) (h c i)
  continue-Synced done action rest h (thrown e) c i = (done, action ∷ rest, refl, i)

  sync_rest-IsSynced :
      (done rest : List StatementAction) (c : Connection S)
      → InStep c done
      → IsSynced (done ++ rest) (sync_rest libpq rest c).0 (sync_rest libpq rest c).1
  unfolding sync_rest
  sync_rest-IsSynced done [] c i = subst (InStep c) (sym (append-nil done)) i
  sync_rest-IsSynced done (action ∷ rest) c i =
      continue-Synced done action rest
        (λ c' i'. sync_rest-IsSynced (done ++ action ∷ []) rest c' i') _ _
        (sync_action-Step done action c i)

  -- For a log whose blocks are those that its actions leave prepared, a connection that has
  -- carried out a part of the actions from the start, and whatever the server answers: when
  -- syncStatements returns, the cursor is at the end of the log, and the connection takes for
  -- prepared the blocks that the actions leave prepared; when it throws, it has carried out a part
  -- again.
  pub sync_statements-IsSynced :
      (log : StatementActionLog) (done rest : List StatementAction) (c : Connection S)
      → IsRecorded log
      → log.actions ≡ done ++ rest
      → InStep c done
      → IsSynced log.actions
          (sync_statements libpq log.actions c).0
          (sync_statements libpq log.actions c).1
  unfolding sync_statements
  sync_statements-IsSynced log done rest c w e i =
      let ahead : from c.statement_cursor log.actions ≡ rest =
        ap (λ n. from n log.actions) i.0 ∙ ap (from (length done)) e ∙ from-append done rest in
      rw ahead (
        subst (λ actions. IsSynced actions (sync_rest libpq rest c).0 (sync_rest libpq rest c).1)
          (sym e) (sync_rest-IsSynced done rest c i))
