-- ===== src/Database/ExecutionQueue/Lease.antt =====
-- ExecutionQueueLease of modules/database/src/libpq_connection.cpp: a lease whose `owner_` is set
-- or null, with its destructor and its moves.
use oink_judge.Prelude.{Bool, true, false, ◌≡◌, refl}
use oink_judge.Database.ExecutionQueue.{Timers, ExecutionQueue, release_execution_queue}

pub data Lease : Type 0 where
  owned released : Lease

-- Two leases of the connection, and its queue.
pub record LeasePair (T : Type 0) : Type 0 where
  pub this : Lease
  pub other : Lease
  pub queue : ExecutionQueue T

-- ExecutionQueueLease(ExecutionQueueLease&&), into `this`
unfoldable pub move_construct : {T : Type 0} → Lease → ExecutionQueue T → LeasePair T
move_construct other queue = record { this = other; other = released; queue = queue }

module _ {T : Type 0} (timers : Timers T) where
  -- ~ExecutionQueueLease
  unfoldable pub end_execution_lease : Lease → ExecutionQueue T → ExecutionQueue T
  end_execution_lease owned queue = release_execution_queue timers queue
  end_execution_lease released queue = queue

  -- operator=(ExecutionQueueLease&&); the flag is `this != &other`
  unfoldable pub move_assign : Bool → LeasePair T → LeasePair T
  unfolding end_execution_lease
  move_assign false pair = pair
  move_assign true pair = record {
    this = pair.other;
    other = released;
    queue = end_execution_lease pair.this pair.queue;
  }

  -- Both leases end, `this` first or last.
  abbrev pub end_this_other : LeasePair T → ExecutionQueue T
  end_this_other pair = end_execution_lease pair.other (end_execution_lease pair.this pair.queue)

  abbrev pub end_other_this : LeasePair T → ExecutionQueue T
  end_other_this pair = end_execution_lease pair.this (end_execution_lease pair.other pair.queue)

  -- After a move assignment between two leases, whether they own or not, their ends release the
  -- queue as often as the ends of the two would have before, in whichever order they end.
  pub move_assign-end :
      (pair : LeasePair T)
      → (end_this_other (move_assign true pair) ≡ end_this_other pair)
        × (end_other_this (move_assign true pair) ≡ end_this_other pair)
  unfolding move_assign
  move_assign-end pair = (refl, refl)

  -- The same of a lease that is moved into a new one.
  pub move_construct-end :
      (other : Lease) (queue : ExecutionQueue T)
      → end_other_this (move_construct other queue) ≡ end_execution_lease other queue
  unfolding move_construct end_execution_lease
  move_construct-end other queue = refl
