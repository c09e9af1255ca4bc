-- ===== src/Database/ExecutionQueue/Served.antt =====
-- The queue on an executor with one thread: no other step comes between `push_back(waiter)` and
-- `async_wait`, so every release wakes the next coroutine.
use oink_judge.Prelude.{
  ℕ, ◌+◌, Bool, true, false, ◌≡◌, refl, ap, ◌∙◌, some, List, [], ◌∷◌, length, ◌⊎◌, inl, inr,
  if◌then◌else◌, get_elem?, modify, All, All-append, All-erase_at, modify-append_length, arith,
}
use oink_judge.Database.ExecutionQueue.{
  Timers, TimerLaws, ExecutionQueue, Waiter, idle_queue, acquire_execution_queue,
  release_execution_queue, start_wait, cancel_wait, new_waiter, enter, pass_on, drop_holder, go_on,
  releases, goes_on,
}
use oink_judge.Database.ExecutionQueue.Exclusive.{IsExclusive, Step-IsExclusive, enter-IsExclusive}

module _ {T : Type 0} (timers : Timers T) where
  -- acquireExecutionQueue up to the point where it is suspended
  unfoldable pub acquire_or_wait : ℕ → ExecutionQueue T → ExecutionQueue T
  unfolding acquire_execution_queue
  acquire_or_wait coroutine q =
      let entered = acquire_execution_queue timers coroutine q in
      record entered {
        execution_waiters =
            modify entered.execution_waiters (length q.execution_waiters) (start_wait timers);
      }

  pub data SerialSteps : ExecutionQueue T → ExecutionQueue T → Type 0 where
    serial_done : {q : ExecutionQueue T} → SerialSteps q q
    acquires :
        {q r : ExecutionQueue T} (coroutine : ℕ)
        → SerialSteps (acquire_or_wait coroutine q) r
        → SerialSteps q r
    resumes :
        {q r : ExecutionQueue T} (i : ℕ) {w : Waiter T}
        → get_elem? q.taken i ≡ some w
        → w.waits ≡ true
        → timers.is_called w.timer ≡ true
        → SerialSteps (go_on timers i w q) r
        → SerialSteps q r
    frees :
        {q r : ExecutionQueue T} (i : ℕ) {coroutine : ℕ}
        → get_elem? q.holders i ≡ some coroutine
        → SerialSteps (release_execution_queue timers (drop_holder i q)) r
        → SerialSteps q r

  abbrev IsPending : Waiter T → Type 0
  IsPending w = (w.waits ≡ true) × (w.timer ≡ timers.async_wait timers.fresh)

  abbrev IsWoken : Waiter T → Type 0
  IsWoken w = (w.waits ≡ true) × (timers.is_called w.timer ≡ true)

  record IsAwake (q : ExecutionQueue T) : Type 0 where
    exclusive : IsExclusive q
    pending : All IsPending q.execution_waiters
    woken : All IsWoken q.taken

  enter-waits :
      (b : Bool) (coroutine : ℕ) (q : ExecutionQueue T)
      → q.execution_in_progress ≡ b
      → (q.execution_in_progress ≡ false → q.execution_waiters ≡ [])
      → All IsPending q.execution_waiters
      → All IsPending (
          modify
            (enter timers b coroutine q).execution_waiters
            (length q.execution_waiters)
            (start_wait timers))
  enter-waits false coroutine q e x h = rw (x e) tt
  enter-waits true coroutine q e x h =
      rw
        (modify-append_length q.execution_waiters (new_waiter timers coroutine) (start_wait timers))
        (All-append IsPending q.execution_waiters
          (start_wait timers (new_waiter timers coroutine) ∷ []) h ((refl, refl), tt))

  enter-IsWoken :
      (b : Bool) (coroutine : ℕ) (q : ExecutionQueue T)
      → All IsWoken q.taken
      → All IsWoken (enter timers b coroutine q).taken
  enter-IsWoken true coroutine q h = h
  enter-IsWoken false coroutine q h = h

  wait-IsExclusive :
      (q : ExecutionQueue T) (i : ℕ)
      → IsExclusive q
      → IsExclusive
          (record q { execution_waiters = modify q.execution_waiters i (start_wait timers) })
  wait-IsExclusive q i h = (h.0, λ p. rw (h.1 p) refl)

  acquire_or_wait-IsAwake :
      (coroutine : ℕ) (q : ExecutionQueue T) → IsAwake q → IsAwake (acquire_or_wait coroutine q)
  unfolding acquire_or_wait
  acquire_or_wait-IsAwake coroutine q h = record {
    exclusive =
        wait-IsExclusive (enter timers q.execution_in_progress coroutine q)
          (length q.execution_waiters)
          (enter-IsExclusive timers q.execution_in_progress coroutine q refl h.exclusive);
    pending = enter-waits q.execution_in_progress coroutine q refl h.exclusive.1 h.pending;
    woken = enter-IsWoken q.execution_in_progress coroutine q h.woken;
  }

  module _ (laws : TimerLaws timers) where
    pass_on-IsWoken :
        (waiters : List (Waiter T)) (q : ExecutionQueue T)
        → All IsPending waiters
        → All IsPending q.execution_waiters
        → All IsWoken q.taken
        → All IsPending (pass_on timers waiters q).execution_waiters
          × All IsWoken (pass_on timers waiters q).taken
    pass_on-IsWoken [] q p e h = (e, h)
    pass_on-IsWoken (w ∷ waiters) q p e h = (
      p.1,
      All-append IsWoken q.taken (cancel_wait timers w ∷ []) h
          ((p.0.0, rw p.0.1 laws.ends_pending), tt),
    )

    serial-IsAwake : {q r : ExecutionQueue T} → SerialSteps q r → IsAwake q → IsAwake r
    unfolding release_execution_queue
    serial-IsAwake serial_done h = h
    serial-IsAwake (acquires {q} coroutine s) h =
        serial-IsAwake s (acquire_or_wait-IsAwake coroutine q h)
    serial-IsAwake (resumes {q} i e k c s) h = serial-IsAwake s (record {
      exclusive = Step-IsExclusive timers (goes_on {q = q} i e k c) h.exclusive;
      pending = h.pending;
      woken = All-erase_at IsWoken q.taken i h.woken;
    })
    serial-IsAwake (frees {q} i e s) h =
        let passed =
          pass_on-IsWoken q.execution_waiters (drop_holder i q) h.pending h.pending h.woken in
        serial-IsAwake s (record {
          exclusive = Step-IsExclusive timers (releases {q = q} i e) h.exclusive;
          pending = passed.0;
          woken = passed.1;
        })

    somebody :
        (holders : List ℕ) (taken : List (Waiter T))
        → length holders + length taken ≡ 1
        → All IsWoken taken
        → ((coroutine : ℕ) × (get_elem? holders 0 ≡ some coroutine))
          ⊎ ((w : Waiter T) × (get_elem? taken 0 ≡ some w)
              × (w.waits ≡ true)
              × (timers.is_called w.timer ≡ true))
    somebody (c ∷ holders) taken e h = inl (c, refl)
    somebody [] (w ∷ taken) e h = inr (w, refl, h.0.0, h.0.1)
    somebody [] [] e h = absurd (omega arith)

    -- If a coroutine always comes from `push_back(waiter)` to its `async_wait` with no other step
    -- between, and the timers do as documented, then whenever an execution is in progress there is
    -- a coroutine that holds the lease, or one whose wait has ended and which takes it next.
    pub serial-served :
        {q : ExecutionQueue T}
        → SerialSteps idle_queue q
        → q.execution_in_progress ≡ true
        → ((coroutine : ℕ) × (get_elem? q.holders 0 ≡ some coroutine))
          ⊎ ((w : Waiter T) × (get_elem? q.taken 0 ≡ some w)
              × (w.waits ≡ true)
              × (timers.is_called w.timer ≡ true))
    serial-served {q} s e =
        let h =
          serial-IsAwake s (record { exclusive = (refl, λ p. refl); pending = tt; woken = tt }) in
        somebody q.holders q.taken (h.exclusive.0 ∙ ap (λ b. if b then 1 else 0) e) h.woken
