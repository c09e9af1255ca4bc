-- ===== src/Database/QueueTests.antt =====
-- Two coroutines on one connection, and the theorems on the execution queue at this input.
use oink_judge.Prelude.{
  ℕ, ◌+◌, ◌≤◌, Bool, true, false, ◌≡◌, ◌↔◌, refl, some, [], ◌∷◌, ◌++◌, map, length, ◌⊎◌, get_elem?,
}
use oink_judge.Database.ExecutionQueue.{
  Timers, TimerLaws, Waiter, ExecutionQueue, idle_queue, drop_holder, Steps, done, more, enters,
  acquire_execution_queue, release_execution_queue,
}
use oink_judge.Database.ExecutionQueue.Exclusive.{orderly, any_done, any_more, steps-exclusive}
use oink_judge.Database.ExecutionQueue.Fair.{steps-in_order}
use oink_judge.Database.ExecutionQueue.Served.{
  serial_done, acquires, frees, acquire_or_wait, serial-served,
}
use oink_judge.Database.ExecutionQueue.Lost.{release-loses}

data TestTimer : Type 0 where
  idle pending called : TestTimer

abbrev start : TestTimer → TestTimer
start idle = pending
start pending = pending
start called = called

abbrev stop : TestTimer → TestTimer
stop idle = idle
stop pending = called
stop called = called

abbrev was_called : TestTimer → Bool
was_called idle = false
was_called pending = false
was_called called = true

abbrev test_timers : Timers TestTimer
test_timers = record { fresh = idle; async_wait = start; cancel = stop; is_called = was_called }

abbrev test_laws : TimerLaws test_timers
test_laws = record { ends_pending = refl; ignores_idle = refl; never_expires = refl }

abbrev two_inside : ExecutionQueue TestTimer
two_inside =
    acquire_execution_queue test_timers 2 (acquire_execution_queue test_timers 1 idle_queue)

abbrev two_enter : Steps test_timers idle_queue two_inside
two_enter = more (enters 1) (more (enters 2) done)

steps-exclusive_example :
    (length two_inside.holders + length two_inside.taken ≤ 1)
    × ((two_inside.execution_in_progress ≡ false)
        ↔ (length two_inside.holders + length two_inside.taken ≡ 0))
steps-exclusive_example =
    steps-exclusive test_timers test_laws
      (any_more (orderly (enters 1)) (any_more (orderly (enters 2)) any_done))

steps-in_order_example :
    two_inside.arrived
    ≡ two_inside.granted
      ++ (map Waiter.coroutine two_inside.taken
          ++ map Waiter.coroutine two_inside.execution_waiters)
steps-in_order_example = steps-in_order test_timers two_enter

-- The lease of the first is destroyed before the second waits, then a third comes.
abbrev third_inside : ExecutionQueue TestTimer
third_inside =
    acquire_execution_queue test_timers 3
      (release_execution_queue test_timers (drop_holder 0 two_inside))

held_by_first : get_elem? two_inside.holders 0 ≡ some 1
unfolding acquire_execution_queue
held_by_first = refl

second_queued :
    two_inside.execution_waiters ≡ record { coroutine = 2; timer = idle; waits = false } ∷ []
unfolding acquire_execution_queue
second_queued = refl

release-loses_example : (third_inside.holders ≡ []) × (third_inside.granted ≡ two_inside.granted)
release-loses_example =
    release-loses test_timers test_laws 0 2 two_enter held_by_first second_queued
      (more (enters 3) done)

abbrev first_waits : ExecutionQueue TestTimer
first_waits = acquire_or_wait test_timers 2 (acquire_or_wait test_timers 1 idle_queue)

abbrev passed_on : ExecutionQueue TestTimer
passed_on = release_execution_queue test_timers (drop_holder 0 first_waits)

held_first : get_elem? first_waits.holders 0 ≡ some 1
unfolding acquire_or_wait
held_first = refl

still_in_progress : passed_on.execution_in_progress ≡ true
unfolding acquire_or_wait release_execution_queue
still_in_progress = refl

serial-served_example :
    ((coroutine : ℕ) × (get_elem? passed_on.holders 0 ≡ some coroutine))
    ⊎ ((w : Waiter TestTimer) × (get_elem? passed_on.taken 0 ≡ some w)
        × (w.waits ≡ true)
        × (was_called w.timer ≡ true))
serial-served_example =
    serial-served test_timers test_laws (acquires 1 (acquires 2 (frees 0 held_first serial_done)))
      still_in_progress
