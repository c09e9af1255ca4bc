-- ===== src/Database/Tests.antt =====
-- A small pool and log, and the theorems at such inputs. A session is the list of the names that
-- are prepared in it, newest first.
use oink_judge.Prelude.{
  ℕ, ◌+◌, length, String, true, false, ◌≡◌, refl, some, List, [], ◌∷◌, Outcome, ok, thrown, Returns,
  string_eq, nat_eq,
}
use oink_judge.Prelude.Dict.{lookup, insert, erase}
use oink_judge.Database.Statements.{
  StatementsBlock, StatementActionLog, prepare, add_statement, empty_log, append_prepare,
  append_unprepare,
}
use oink_judge.Database.Statements.Recorded.{IsRecorded, append_prepare-IsRecorded}
use oink_judge.Database.Connection.{Libpq, sync_action, sync_statements, is_prepared}
use oink_judge.Database.Connection.Sync.{IsSynced, sync_statements-IsSynced}
use oink_judge.Database.Pool.{
  lease_unprepare_statements, PoolSlot, Pool, new_connection, try_acquire, initialize, take_slot,
  sync_slot, acquire, release_slot, mark,
}
use oink_judge.Database.Pool.Slots.{in_use_at}
use oink_judge.Database.Pool.Leases.{}
use oink_judge.Database.Pool.Interleaved.{PoolCalls, CallSteps, shared_slot, exceeds_max}
use oink_judge.Database.Pool.Release.{release_slot-acquire, acquire-leaks}

abbrev Names : Type 0
Names = List String

-- A server that accepts everything, and one that accepts nothing.
abbrev willing : Libpq Names
willing = record {
  send_prepare = λ name sql s. (ok tt, name ∷ s);
  send_deallocate = λ name s. (ok tt, s);
}

abbrev unwilling : Libpq Names
unwilling = record {
  send_prepare = λ name sql s. (thrown "refused", s);
  send_deallocate = λ name s. (thrown "refused", s);
}

abbrev reachable : ℕ → Outcome Names
reachable n = ok []

abbrev submissions_block : StatementsBlock
submissions_block = record {
  block_name = "submissions";
  statements = ("get", record { name = "get"; sql = "SELECT 1" }) ∷ [];
}

add_statement_run :
    add_statement
      (record { name = "get"; sql = "SELECT 1" })
      (record { block_name = "submissions"; statements = [] })
    ≡ submissions_block
unfolding add_statement insert
add_statement_run = refl

abbrev one_block : StatementActionLog
one_block = record {
  prepared_blocks = ("submissions", submissions_block) ∷ [];
  actions = record { type = prepare; block = submissions_block } ∷ [];
}

append_run : append_prepare empty_log submissions_block ≡ ok (one_block, 1)
unfolding append_prepare insert lookup
append_run = refl

empty_log-IsRecorded : IsRecorded empty_log
unfolding lookup
empty_log-IsRecorded = record { replayed = λ name. refl; named = λ name block e. cc }

one_block-IsRecorded : IsRecorded one_block
unfolding append_prepare insert lookup
one_block-IsRecorded =
    (append_prepare-IsRecorded empty_log submissions_block empty_log-IsRecorded refl).0

sync_run : sync_statements willing one_block.actions (new_connection []) ≡ (
  ok tt,
  record { statement_cursor = 1; prepared_blocks = ("submissions", tt) ∷ []; session = "get" ∷ [] },
)
unfolding sync_statements insert sync_action
sync_run = refl

sync_statements-IsSynced_example :
    IsSynced one_block.actions
      (sync_statements willing one_block.actions (new_connection [])).0
      (sync_statements willing one_block.actions (new_connection [])).1
unfolding is_prepared lookup
sync_statements-IsSynced_example =
    sync_statements-IsSynced willing one_block [] one_block.actions (new_connection [])
      one_block-IsRecorded refl (refl, (λ name. refl))

abbrev pool_of : List (PoolSlot Names) → Pool Names
pool_of slots = record {
  pool_min = 1;
  pool_max = 2;
  initialized = true;
  statement_log = one_block;
  prepared_blocks = ("submissions", tt) ∷ [];
  slots = slots;
}

abbrev free_slot : PoolSlot Names
free_slot = record { connection = new_connection []; in_use = false }

abbrev busy_slot : PoolSlot Names
busy_slot = mark true free_slot

acquire_run : (acquire willing reachable (pool_of (busy_slot ∷ []))).0 ≡ ok (some 1)
unfolding acquire initialize take_slot sync_statements sync_action sync_slot
acquire_run = refl

release_slot-acquire_example :
    Returns (release_slot 0 (acquire willing reachable (pool_of (free_slot ∷ []))).1).0 (λ _.
      (j : ℕ)
      → in_use_at j
          (release_slot 0 (acquire willing reachable (pool_of (free_slot ∷ []))).1).1.slots
        ≡ in_use_at j (free_slot ∷ []))
unfolding acquire initialize take_slot sync_slot sync_statements sync_action
release_slot-acquire_example =
    release_slot-acquire willing reachable (pool_of (free_slot ∷ [])) 0 refl refl

acquire-leaks_example :
    ((acquire unwilling reachable (pool_of (free_slot ∷ []))).0 ≡ thrown "refused")
    × (in_use_at 0 (acquire unwilling reachable (pool_of (free_slot ∷ []))).1.slots ≡ true)
unfolding try_acquire sync_slot sync_statements sync_action
acquire-leaks_example =
    acquire-leaks unwilling reachable (pool_of (free_slot ∷ [])) 0 (busy_slot ∷ []) "refused" refl
      refl refl

-- Once its holder has unprepared the block, the slot's connection has it no more.
lease_run :
    (lease_unprepare_statements willing reachable 0 "submissions"
      (pool_of (busy_slot ∷ []))).1.slots
    ≡ record {
      connection = record { statement_cursor = 2; prepared_blocks = []; session = "get" ∷ [] };
      in_use = true;
    }
      ∷ []
unfolding lease_unprepare_statements append_unprepare lookup erase insert sync_statements
    sync_action
lease_run = refl

-- One call has found room in a pool whose only slot is in use.
abbrev one_creating : PoolCalls Names
one_creating = record {
  pool = pool_of (busy_slot ∷ []);
  creating = 1;
  pushed = [];
  holders = 0 ∷ [];
}

shared_slot_example :
    (r : PoolCalls Names) × CallSteps one_creating r × (r.holders ≡ 1 ∷ 1 ∷ 0 ∷ [])
unfolding try_acquire
shared_slot_example = shared_slot one_creating (new_connection []) refl refl

exceeds_max_example :
    (r : PoolCalls Names) × CallSteps one_creating r × (length r.pool.slots ≡ 1 + 7)
unfolding try_acquire
exceeds_max_example = exceeds_max one_creating 7 (new_connection []) refl refl
