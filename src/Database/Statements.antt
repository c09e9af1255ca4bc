-- ===== src/Database/Statements.antt =====
-- modules/database/src/statements.cpp and statement_action_log.cpp. A set of names is a dictionary
-- of units. The texts of the exceptions are cut to their fixed part.
pub mod Recorded
use oink_judge.Prelude.{
  ℕ, String, Bool, true, false, Option, none, some, List, [], ◌∷◌, ◌++◌, length, if◌then◌else◌,
  Outcome, ok, thrown, string_eq,
}
use oink_judge.Prelude.Dict.{lookup, insert, erase}

pub record Statement : Type 0 where
  pub name : String
  pub sql : String

pub record StatementsBlock : Type 0 where
  pub block_name : String
  pub statements : List (String × Statement)

-- StatementsBlock::addStatement
unfoldable pub add_statement : Statement → StatementsBlock → StatementsBlock
add_statement statement block = record block {
  statements = insert statement.name statement block.statements;
}

pub data StatementActionType : Type 0 where
  prepare unprepare : StatementActionType

pub record StatementAction : Type 0 where
  pub type : StatementActionType
  pub block : StatementsBlock

pub record StatementActionLog : Type 0 where
  pub prepared_blocks : List (String × StatementsBlock)
  pub actions : List StatementAction

abbrev pub empty_log : StatementActionLog
empty_log = record { prepared_blocks = []; actions = [] }

abbrev pub is_some {ℓ} : {A : Type ℓ} → Option A → Bool
is_some none = false
is_some (some a) = true

abbrev Here : Type 0
Here = Unit

-- std::unordered_set<std::string>
abbrev pub NameSet : Type 0
NameSet = List (String × Here)

-- prepared_blocks_.contains
abbrev pub contains {ℓ} : {V : Type ℓ} → String → List (String × V) → Bool
contains name blocks = is_some (lookup name blocks)

-- appendPrepare
unfoldable pub append_prepare :
    StatementActionLog → StatementsBlock → Outcome (StatementActionLog × ℕ)
append_prepare log block =
    let actions = log.actions ++ record { type = prepare; block = block } ∷ [] in
    if contains block.block_name log.prepared_blocks
    then thrown "statements block already prepared: "
    else ok (
      record {
        prepared_blocks = insert block.block_name block log.prepared_blocks;
        actions = actions;
      },
      length actions,
    )

-- appendUnprepare
unfoldable pub append_unprepare : StatementActionLog → String → Outcome (StatementActionLog × ℕ)
append_unprepare log block_name = elim (lookup block_name log.prepared_blocks) [
  | none ↦ thrown "statements block not prepared: "
  | some block ↦
      let actions = log.actions ++ record { type = unprepare; block = block } ∷ [] in
      ok (
        record { prepared_blocks = erase block_name log.prepared_blocks; actions = actions },
        length actions,
      )
]
