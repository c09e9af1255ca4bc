-- ===== src/Database/Statements/Recorded.antt =====
-- statement_action_log.cpp: the blocks of the log against its actions.
use mathlib.Core.List.{foldl}
use oink_judge.Prelude.{
  String, Bool, true, false, ◌≡◌, refl, ◌∙◌, some, List, [], ◌∷◌, ◌++◌, length, ◌==◌, if◌then◌else◌,
  ok, Returns, string_eq, arith, eq_iff, inl, inr, Option-cases,
}
use oink_judge.Prelude.Dict.{lookup, insert, erase, lookup-insert, lookup-erase}
use oink_judge.Database.Statements.{
  StatementsBlock, prepare, unprepare, StatementAction, StatementActionLog, contains,
  append_prepare, append_unprepare,
}

-- Whether a block is prepared after the actions, if it was as given before.
abbrev pub after_action : String → Bool → StatementAction → Bool
after_action name before action =
    if action.block.block_name == name
    then elim action.type [ prepare ↦ true | unprepare ↦ false ]
    else before

abbrev pub after_actions : String → List StatementAction → Bool
after_actions name actions = foldl (after_action name) false actions

-- The log's blocks are those that its actions leave prepared, each under its own name.
pub record IsRecorded (log : StatementActionLog) : Type 0 where
  pub replayed :
      (name : String) → contains name log.prepared_blocks ≡ after_actions name log.actions
  pub named :
      (name : String) (block : StatementsBlock)
      → lookup name log.prepared_blocks ≡ some block
      → block.block_name ≡ name

pub foldl-append :
    (name : String) (before : Bool) (xs ys : List StatementAction)
    → foldl (after_action name) before (xs ++ ys)
      ≡ foldl (after_action name) (foldl (after_action name) before xs) ys
foldl-append name before [] ys = refl
foldl-append name before (x ∷ xs) ys = foldl-append name (after_action name before x) xs ys

pub contains-insert :
    {V : Type 0} (key name : String) (value : V) (entries : List (String × V))
    → contains name (insert key value entries)
      ≡ (if key == name then true else contains name entries)
contains-insert key name value entries = rw (lookup-insert key name value entries) (ground arith)

pub contains-erase :
    {V : Type 0} (key name : String) (entries : List (String × V))
    → contains name (erase key entries) ≡ (if key == name then false else contains name entries)
contains-erase key name entries = rw (lookup-erase key name entries) (ground arith)

-- In a log whose blocks are those that its actions leave prepared, appendPrepare of a block that
-- is not prepared returns the number of actions, and leaves such a log.
pub append_prepare-IsRecorded :
    (log : StatementActionLog) (block : StatementsBlock)
    → IsRecorded log
    → after_actions block.block_name log.actions ≡ false
    → Returns (append_prepare log block) (λ r. IsRecorded r.0 × (r.1 ≡ length r.0.actions))
unfolding append_prepare
append_prepare-IsRecorded log block w fresh = rw (w.replayed block.block_name ∙ fresh) (
  record {
    replayed = λ name.
        rw
          (
            foldl-append name false log.actions (record { type = prepare; block = block } ∷ []),
            contains-insert block.block_name name block log.prepared_blocks,
          )
          (ground (arith, w.replayed name));
    named = λ name other e. ground (
      arith,
      eq_iff block.block_name name,
      lookup-insert block.block_name name block log.prepared_blocks,
      w.named name other,
    );
  },
  refl,
)

stored :
    (name : String) {V : Type 0} (entries : List (String × V))
    → contains name entries ≡ true
    → (v : V) × (lookup name entries ≡ some v)
stored name entries e = elim (Option-cases (lookup name entries)) [
  | inl gone ↦ ground arith
  | inr found ↦ found
]

append_unprepare-some :
    (log : StatementActionLog) (name : String) (block : StatementsBlock)
    → lookup name log.prepared_blocks ≡ some block
    → append_unprepare log name
      ≡ ok (
        record {
          prepared_blocks = erase name log.prepared_blocks;
          actions = log.actions ++ record { type = unprepare; block = block } ∷ [];
        },
        length (log.actions ++ record { type = unprepare; block = block } ∷ []),
      )
unfolding append_unprepare
append_unprepare-some log name block e = ground arith

-- In a log whose blocks are those that its actions leave prepared, appendUnprepare of a block that
-- is prepared returns the number of actions, and leaves such a log.
pub append_unprepare-IsRecorded :
    (log : StatementActionLog) (name : String)
    → IsRecorded log
    → after_actions name log.actions ≡ true
    → Returns (append_unprepare log name) (λ r. IsRecorded r.0 × (r.1 ≡ length r.0.actions))
append_unprepare-IsRecorded log name w there =
    let (block, e) = stored name log.prepared_blocks (w.replayed name ∙ there) in
    rw (append_unprepare-some log name block e) (
      record {
        replayed = λ other.
            rw
              (
                foldl-append other false log.actions
                    (record { type = unprepare; block = block } ∷ []),
                contains-erase name other log.prepared_blocks,
                w.named name block e,
              )
              (ground (arith, w.replayed other));
        named = λ other found h.
            ground (arith, lookup-erase name other log.prepared_blocks, w.named other found);
      },
      refl,
    )
