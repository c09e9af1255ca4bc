-- ===== src/Database/ExecutionQueue.antt =====
-- modules/database/src/libpq_connection.cpp: acquireExecutionQueue, releaseExecutionQueue and the
-- leases, as steps of any number of coroutines on any number of threads. The lock covers the two
-- methods' sections; between `push_back(waiter)` and `waiter->async_wait` other steps may come.
pub mod Exclusive
pub mod Fair
pub mod Served
pub mod Lost
pub mod Lease
use oink_judge.Prelude.{
  ℕ, Bool, true, false, ◌≡◌, some, List, [], ◌∷◌, ◌++◌, get_elem?, modify, erase_at,
}

-- boost::asio::steady_timer, which expires never: a new one, `async_wait` and `cancel` on it, and
-- whether the handler of its wait was called.
pub record Timers (T : Type 0) : Type 0 where
  pub fresh : T
  pub async_wait : T → T
  pub cancel : T → T
  pub is_called : T → Bool

-- What asio documents of them: `cancel` ends the wait that is pending, and does nothing to a timer
-- on which no wait is pending.
pub record TimerLaws {T : Type 0} (timers : Timers T) : Type 0 where
  pub ends_pending : timers.is_called (timers.cancel (timers.async_wait timers.fresh)) ≡ true
  pub ignores_idle : timers.cancel timers.fresh ≡ timers.fresh
  pub never_expires : timers.is_called (timers.async_wait timers.fresh) ≡ false

-- A coroutine in `acquireExecutionQueue`, behind its `push_back`; `waits` from `async_wait` on.
pub record Waiter (T : Type 0) : Type 0 where
  pub coroutine : ℕ
  pub timer : T
  pub waits : Bool

-- The fields of the connection, the coroutines that hold a lease, and the waiters that were taken
-- from the queue and have not gone on. `arrived` and `granted` record the order of the calls and
-- of the leases.
pub record ExecutionQueue (T : Type 0) : Type 0 where
  pub execution_in_progress : Bool
  pub execution_waiters : List (Waiter T)
  pub holders : List ℕ
  pub taken : List (Waiter T)
  pub arrived : List ℕ
  pub granted : List ℕ

abbrev pub idle_queue : {T : Type 0} → ExecutionQueue T
idle_queue = record {
  execution_in_progress = false;
  execution_waiters = [];
  holders = [];
  taken = [];
  arrived = [];
  granted = [];
}

abbrev pub drop_holder : {T : Type 0} → ℕ → ExecutionQueue T → ExecutionQueue T
drop_holder i q = record q { holders = erase_at q.holders i }

module _ {T : Type 0} (timers : Timers T) where
  abbrev pub new_waiter : ℕ → Waiter T
  new_waiter coroutine = record { coroutine = coroutine; timer = timers.fresh; waits = false }

  abbrev pub start_wait : Waiter T → Waiter T
  start_wait w = record w { timer = timers.async_wait w.timer; waits = true }

  abbrev pub cancel_wait : Waiter T → Waiter T
  cancel_wait w = record w { timer = timers.cancel w.timer }

  abbrev pub enter : Bool → ℕ → ExecutionQueue T → ExecutionQueue T
  enter false coroutine q = record q {
    execution_in_progress = true;
    holders = coroutine ∷ q.holders;
    arrived = q.arrived ++ coroutine ∷ [];
    granted = q.granted ++ coroutine ∷ [];
  }
  enter true coroutine q = record q {
    execution_waiters = q.execution_waiters ++ new_waiter coroutine ∷ [];
    arrived = q.arrived ++ coroutine ∷ [];
  }

  -- acquireExecutionQueue, up to the end of its locked section
  unfoldable pub acquire_execution_queue : ℕ → ExecutionQueue T → ExecutionQueue T
  acquire_execution_queue coroutine q = enter q.execution_in_progress coroutine q

  abbrev pub pass_on : List (Waiter T) → ExecutionQueue T → ExecutionQueue T
  pass_on [] q = record q { execution_in_progress = false }
  pass_on (next_waiter ∷ waiters) q = record q {
    execution_waiters = waiters;
    taken = q.taken ++ cancel_wait next_waiter ∷ [];
  }

  -- releaseExecutionQueue
  unfoldable pub release_execution_queue : ExecutionQueue T → ExecutionQueue T
  release_execution_queue q = pass_on q.execution_waiters q

  -- The end of acquireExecutionQueue, for a waiter whose wait has ended.
  abbrev pub go_on : ℕ → Waiter T → ExecutionQueue T → ExecutionQueue T
  go_on i w q = record q {
    taken = erase_at q.taken i;
    holders = w.coroutine ∷ q.holders;
    granted = q.granted ++ w.coroutine ∷ [];
  }

  -- One step of a coroutine, where a wait ends only by the cancellation of a release: it enters,
  -- it starts its wait (in the queue, or when it was taken from there), it goes on, or its lease
  -- is destroyed.
  pub data Step : ExecutionQueue T → ExecutionQueue T → Type 0 where
    enters : {q : ExecutionQueue T} (coroutine : ℕ) → Step q (acquire_execution_queue coroutine q)
    starts_wait :
        {q : ExecutionQueue T} (i : ℕ) {w : Waiter T}
        → get_elem? q.execution_waiters i ≡ some w
        → w.waits ≡ false
        → Step q (record q { execution_waiters = modify q.execution_waiters i start_wait })
    waits_late :
        {q : ExecutionQueue T} (i : ℕ) {w : Waiter T}
        → get_elem? q.taken i ≡ some w
        → w.waits ≡ false
        → Step q (record q { taken = modify q.taken i start_wait })
    goes_on :
        {q : ExecutionQueue T} (i : ℕ) {w : Waiter T}
        → get_elem? q.taken i ≡ some w
        → w.waits ≡ true
        → timers.is_called w.timer ≡ true
        → Step q (go_on i w q)
    releases :
        {q : ExecutionQueue T} (i : ℕ) {coroutine : ℕ}
        → get_elem? q.holders i ≡ some coroutine
        → Step q (release_execution_queue (drop_holder i q))

  -- Any number of steps
  pub data Steps : ExecutionQueue T → ExecutionQueue T → Type 0 where
    done : {q : ExecutionQueue T} → Steps q q
    more : {q r s : ExecutionQueue T} → Step q r → Steps r s → Steps q s
