-- ===== src/Database/Pool.antt =====
-- modules/database/src/connection_pool.cpp and pooled_connection.cpp, for calls that do not
-- overlap. `dial` says what connecting to the server gives, by the number of the attempt.
pub mod Slots
pub mod Leases
pub mod Release
pub mod Interleaved
use oink_judge.Prelude.{
  ℕ, zero, suc, ◌+◌, String, Bool, true, false, Option, none, some, List, [], ◌∷◌, ◌++◌, length,
  if◌then◌else◌, get_elem?, modify, Outcome, ok, thrown, Reply, string_eq, nat_eq, arith, ltb,
}
use oink_judge.Prelude.Dict.{insert, erase}
use oink_judge.Prelude.Exec.{Exec, pure, raise, update, ◌>>=◌, ◌>>◌}
use oink_judge.Database.Statements.{
  StatementsBlock, StatementActionLog, NameSet, contains, append_prepare, append_unprepare,
}
use oink_judge.Database.Connection.{Libpq, Connection, sync_statements}

-- ConnectionPool::Slot
pub record PoolSlot (S : Type 0) : Type 0 where
  pub connection : Connection S
  pub in_use : Bool

pub record Pool (S : Type 0) : Type 0 where
  pub pool_min : ℕ
  pub pool_max : ℕ
  pub initialized : Bool
  pub statement_log : StatementActionLog
  pub prepared_blocks : NameSet
  pub slots : List (PoolSlot S)

-- tryAcquireExistingSlot: the first slot that is free, and the slots with it marked.
unfoldable pub try_acquire : {S : Type 0} → List (PoolSlot S) → Option (ℕ × List (PoolSlot S))
try_acquire [] = none
try_acquire (slot ∷ slots) =
    if slot.in_use
    then elim (try_acquire slots) [ none ↦ none | some (i, rest) ↦ some (suc i, slot ∷ rest) ]
    else some (0, record slot { in_use = true } ∷ slots)

-- `slots_[index].in_use = value`
abbrev pub mark : {S : Type 0} → Bool → PoolSlot S → PoolSlot S
mark value slot = record slot { in_use = value }

abbrev pub reconnect : {S : Type 0} → Connection S → PoolSlot S → PoolSlot S
reconnect connection slot = record slot { connection = connection }

-- A connection after connectAsync
abbrev pub new_connection : {S : Type 0} → S → Connection S
new_connection session = record { statement_cursor = 0; prepared_blocks = []; session = session }

module _ {S : Type 0} where
  -- releaseSlot
  unfoldable pub release_slot : ℕ → Exec (Pool S) Unit
  release_slot index pool = elim (get_elem? pool.slots index) [
    | none ↦ (thrown "invalid pool slot index", pool)
    | some slot ↦ (ok tt, record pool { slots = modify pool.slots index (mark false) })
  ]

  -- prepareStatements: the name goes into the set before the log can refuse the block.
  unfoldable pub prepare_statements : StatementsBlock → Exec (Pool S) Unit
  prepare_statements block pool =
      let named = record pool {
        prepared_blocks = insert block.block_name tt pool.prepared_blocks;
      } in
      elim (append_prepare pool.statement_log block) [
        | ok (log, _) ↦ (ok tt, record named { statement_log = log })
        | thrown e ↦ (thrown e, named)
      ]

  -- unprepareStatements
  unfoldable pub unprepare_statements : String → Exec (Pool S) Unit
  unprepare_statements block_name pool =
      let unnamed = record pool { prepared_blocks = erase block_name pool.prepared_blocks } in
      elim (append_unprepare pool.statement_log block_name) [
        | ok (log, _) ↦ (ok tt, record unnamed { statement_log = log })
        | thrown e ↦ (thrown e, unnamed)
      ]

  -- isPrepared
  unfoldable pub pool_is_prepared : Pool S → String → Bool
  pool_is_prepared pool block_name = contains block_name pool.prepared_blocks

  -- The end of createSlot: the connection is kept if its statements were synchronised.
  abbrev pub push_slot : Pool S → Reply × Connection S → Outcome ℕ × Pool S
  push_slot pool (ok _, connection) = (
    ok (length pool.slots),
    record pool { slots = pool.slots ++ record { connection = connection; in_use = false } ∷ [] },
  )
  push_slot pool (thrown e, connection) = (thrown e, pool)

  module _ (libpq : Libpq S) (dial : ℕ → Outcome S) where
    abbrev pub connect_slot : Outcome S → Exec (Pool S) ℕ
    connect_slot (thrown e) pool = (thrown e, pool)
    connect_slot (ok session) pool =
        push_slot pool (sync_statements libpq pool.statement_log.actions (new_connection session))

    -- createSlot
    unfoldable pub create_slot : Exec (Pool S) ℕ
    create_slot pool = connect_slot (dial (length pool.slots)) pool

    -- The loop of initialize
    unfoldable pub create_slots : ℕ → Exec (Pool S) Unit
    unfolding create_slot
    create_slots zero = pure tt
    create_slots (suc n) = do create_slot; create_slots n

    -- initialize
    unfoldable pub initialize : Exec (Pool S) Unit
    unfolding create_slots
    initialize pool =
        if pool.initialized
        then (ok tt, pool)
        else (do create_slots pool.pool_min; update (λ p. record p { initialized = true })) pool

    -- The branches of acquire: `should_create`, and the result of tryAcquireExistingSlot.
    abbrev pub take_new : Bool → Exec (Pool S) (Option ℕ)
    take_new true = do
      index ← create_slot
      update (λ p. record p { slots = modify p.slots index (mark true) })
      pure (some index)
    take_new false = pure none

    abbrev pub take_found : Option (ℕ × List (PoolSlot S)) → Exec (Pool S) (Option ℕ)
    take_found (some (index, slots)) pool = (ok (some index), record pool { slots = slots })
    take_found none pool = take_new (ltb (length pool.slots) pool.pool_max) pool

    -- The part of acquire that finds a slot; `none` where it would wait for one.
    unfoldable pub take_slot : Exec (Pool S) (Option ℕ)
    unfolding try_acquire
    take_slot pool = take_found (try_acquire pool.slots) pool

    abbrev pub sync_found : ℕ → Option (PoolSlot S) → Exec (Pool S) Unit
    sync_found index none pool = (thrown "invalid pool slot index", pool)
    sync_found index (some slot) pool =
        let (r, connection) = sync_statements libpq pool.statement_log.actions slot.connection in
        (r, record pool { slots = modify pool.slots index (reconnect connection) })

    -- The end of acquire: the connection of the slot is brought up to date.
    unfoldable pub sync_slot : ℕ → Exec (Pool S) Unit
    sync_slot index pool = sync_found index (get_elem? pool.slots index) pool

    abbrev pub finish_acquire : Option ℕ → Exec (Pool S) (Option ℕ)
    finish_acquire none = pure none
    finish_acquire (some index) = do sync_slot index; pure (some index)

    -- acquire
    unfoldable pub acquire : Exec (Pool S) (Option ℕ)
    acquire = do initialize; index ← take_slot; finish_acquire index

    -- PooledConnection::prepareStatements and unprepareStatements, for the slot of the lease
    unfoldable pub lease_prepare_statements : ℕ → StatementsBlock → Exec (Pool S) Unit
    unfolding prepare_statements sync_slot
    lease_prepare_statements index block = do prepare_statements block; sync_slot index

    unfoldable pub lease_unprepare_statements : ℕ → String → Exec (Pool S) Unit
    unfolding unprepare_statements sync_slot
    lease_unprepare_statements index block_name = do
      unprepare_statements block_name
      sync_slot index

  -- ~PooledConnection
  unfoldable pub end_lease : ℕ → Exec (Pool S) Unit
  unfolding release_slot
  end_lease index = release_slot index
