-- ===== src/Database/ExecutionQueue/Exclusive.antt =====
-- Mutual exclusion of the leases of one connection.
use oink_judge.Prelude.{
  ◌↔◌, zero, suc, ap, ◌∷◌, ℕ, ◌+◌, ◌≤◌, Bool, true, false, ◌≡◌, refl, some, List, [], length,
  if◌then◌else◌, ◌++◌, sym, ◌∙◌, some_inj, ◌⊎◌, inl, inr, All, All-append, All-modify,
  All-get_elem?, get_elem?, modify, erase_at, length-append, arith,
}
use oink_judge.Database.ExecutionQueue.{
  Timers, TimerLaws, new_waiter, ExecutionQueue, Waiter, Step, enters, starts_wait, waits_late,
  goes_on, releases, cancel_wait, Steps, done, more, idle_queue, acquire_execution_queue,
  release_execution_queue, start_wait, enter, pass_on, drop_holder,
}

-- One lease, or one waiter on its way to a lease, while an execution is in progress; none, and
-- nobody in the queue, otherwise.
abbrev pub IsExclusive : {T : Type 0} → ExecutionQueue T → Type 0
IsExclusive q =
    (length q.holders + length q.taken ≡ (if q.execution_in_progress then 1 else 0))
    × (q.execution_in_progress ≡ false → q.execution_waiters ≡ [])

length-modify {ℓ} :
    {A : Type ℓ} (xs : List A) (i : ℕ) (f : A → A) → length (modify xs i f) ≡ length xs
length-modify [] i f = refl
length-modify (x ∷ xs) zero f = refl
length-modify (x ∷ xs) (suc i) f = ap suc (length-modify xs i f)

length-erase_at {ℓ} :
    {A : Type ℓ} (xs : List A) (i : ℕ) {x : A}
    → get_elem? xs i ≡ some x
    → length (erase_at xs i) + 1 ≡ length xs
length-erase_at [] i e = cc
length-erase_at (x ∷ xs) zero e = omega arith
length-erase_at (x ∷ xs) (suc i) e = omega (arith, length-erase_at xs i e)

pub both_empty {ℓ κ} :
    {A : Type ℓ} {B : Type κ} (xs : List A) (ys : List B)
    → length xs + length ys ≡ 0
    → (xs ≡ []) × (ys ≡ [])
both_empty [] [] h = (refl, refl)
both_empty [] (y ∷ ys) h = absurd (omega arith)
both_empty (x ∷ xs) ys h = absurd (omega arith)

module _ {T : Type 0} (timers : Timers T) where
  pub enter-IsExclusive :
      (b : Bool) (coroutine : ℕ) (q : ExecutionQueue T)
      → q.execution_in_progress ≡ b
      → IsExclusive q
      → IsExclusive (enter timers b coroutine q)
  enter-IsExclusive true coroutine q e h = (h.0, λ p. cc)
  enter-IsExclusive false coroutine q e h = (ground arith, λ p. cc)

  pass_on-IsExclusive :
      (waiters : List (Waiter T)) (q : ExecutionQueue T)
      → q.execution_waiters ≡ waiters
      → length q.holders + length q.taken ≡ 0
      → q.execution_in_progress ≡ true
      → IsExclusive (pass_on timers waiters q)
  pass_on-IsExclusive [] q e h k = (h, λ p. e)
  pass_on-IsExclusive (w ∷ waiters) q e h k =
      (rw k (omega (arith, h, length-append q.taken (cancel_wait timers w ∷ []))), λ p. cc)

  pub at_release :
      (q : ExecutionQueue T) (i : ℕ) {coroutine : ℕ}
      → get_elem? q.holders i ≡ some coroutine
      → length q.holders + length q.taken ≡ (if q.execution_in_progress then 1 else 0)
      → (length (erase_at q.holders i) + length q.taken ≡ 0) × (q.execution_in_progress ≡ true)
  at_release q i e h = ground (arith, length-erase_at q.holders i e)

  pub Step-IsExclusive : {q r : ExecutionQueue T} → Step timers q r → IsExclusive q → IsExclusive r
  unfolding acquire_execution_queue release_execution_queue
  Step-IsExclusive (enters {q} coroutine) h =
      enter-IsExclusive q.execution_in_progress coroutine q refl h
  Step-IsExclusive (starts_wait {q} i e k) h = (h.0, λ p. rw (h.1 p) refl)
  Step-IsExclusive (waits_late {q} i e k) h =
      (omega (arith, h.0, length-modify q.taken i (start_wait timers)), h.1)
  Step-IsExclusive (goes_on {q} i e k c) h = (omega (arith, h.0, length-erase_at q.taken i e), h.1)
  Step-IsExclusive (releases {q} i e) h =
      let a = at_release q i e h.0 in
      pass_on-IsExclusive q.execution_waiters (drop_holder i q) refl a.0 a.1

  Steps-IsExclusive : {q r : ExecutionQueue T} → Steps timers q r → IsExclusive q → IsExclusive r
  Steps-IsExclusive done h = h
  Steps-IsExclusive (more s t) h = Steps-IsExclusive t (Step-IsExclusive s h)

  pub at_most_one : (q : ExecutionQueue T) → IsExclusive q → length q.holders + length q.taken ≤ 1
  at_most_one q h = ground arith

  pub reachable-IsExclusive : {q : ExecutionQueue T} → Steps timers idle_queue q → IsExclusive q
  reachable-IsExclusive s = Steps-IsExclusive s (refl, λ p. refl)

  -- Nothing has ended the wait of this waiter.
  abbrev IsQuiet : Waiter T → Type 0
  IsQuiet w =
      ((w.waits ≡ false) × (w.timer ≡ timers.fresh))
      ⊎ ((w.waits ≡ true) × (timers.is_called w.timer ≡ false))

  -- A step of the code: acquireExecutionQueue goes on whenever its wait ends, also for a waiter
  -- that is still in the queue, where it stays.
  pub data AnyStep : ExecutionQueue T → ExecutionQueue T → Type 0 where
    orderly : {q r : ExecutionQueue T} → Step timers q r → AnyStep q r
    wakes :
        {q : ExecutionQueue T} (i : ℕ) {w : Waiter T}
        → get_elem? q.execution_waiters i ≡ some w
        → w.waits ≡ true
        → timers.is_called w.timer ≡ true
        → AnyStep q (record q {
          holders = w.coroutine ∷ q.holders;
          granted = q.granted ++ w.coroutine ∷ [];
        })

  pub data AnySteps : ExecutionQueue T → ExecutionQueue T → Type 0 where
    any_done : {q : ExecutionQueue T} → AnySteps q q
    any_more : {q r s : ExecutionQueue T} → AnyStep q r → AnySteps r s → AnySteps q s

  module _ (laws : TimerLaws timers) where
    wait-IsQuiet : (w : Waiter T) → w.waits ≡ false → IsQuiet w → IsQuiet (start_wait timers w)
    wait-IsQuiet w k (inl (e, fresh)) = inr (refl, rw fresh (laws.never_expires))
    wait-IsQuiet w k (inr (e, c)) = cc

    enter-IsQuiet :
        (b : Bool) (coroutine : ℕ) (q : ExecutionQueue T)
        → All IsQuiet q.execution_waiters
        → All IsQuiet (enter timers b coroutine q).execution_waiters
    enter-IsQuiet true coroutine q h =
        All-append IsQuiet q.execution_waiters (new_waiter timers coroutine ∷ []) h
          (inl (refl, refl), tt)
    enter-IsQuiet false coroutine q h = h

    pass_on-IsQuiet :
        (waiters : List (Waiter T)) (q : ExecutionQueue T)
        → All IsQuiet waiters
        → All IsQuiet q.execution_waiters
        → All IsQuiet (pass_on timers waiters q).execution_waiters
    pass_on-IsQuiet [] q p h = h
    pass_on-IsQuiet (w ∷ waiters) q p h = p.1

    Step-IsQuiet :
        {q r : ExecutionQueue T}
        → Step timers q r
        → All IsQuiet q.execution_waiters
        → All IsQuiet r.execution_waiters
    unfolding acquire_execution_queue release_execution_queue
    Step-IsQuiet (enters {q} coroutine) h = enter-IsQuiet q.execution_in_progress coroutine q h
    Step-IsQuiet (starts_wait {q} i {w} e k) h =
        All-modify IsQuiet q.execution_waiters i (start_wait timers)
          (λ x at.
            wait-IsQuiet x (ap Waiter.waits (some_inj (sym at ∙ e)) ∙ k)
              (All-get_elem? IsQuiet q.execution_waiters i h at))
          h
    Step-IsQuiet (waits_late {q} i e k) h = h
    Step-IsQuiet (goes_on {q} i e k c) h = h
    Step-IsQuiet (releases {q} i e) h = pass_on-IsQuiet q.execution_waiters (drop_holder i q) h h

    quiet-not_called :
        (w : Waiter T) → IsQuiet w → w.waits ≡ true → timers.is_called w.timer ≡ true → ⊥
    quiet-not_called w (inl d) k c = cc
    quiet-not_called w (inr d) k c = cc

    AnySteps-IsExclusive :
        {q r : ExecutionQueue T}
        → AnySteps q r
        → IsExclusive q
        → All IsQuiet q.execution_waiters
        → IsExclusive r
    AnySteps-IsExclusive any_done h n = h
    AnySteps-IsExclusive (any_more (orderly s) t) h n =
        AnySteps-IsExclusive t (Step-IsExclusive s h) (Step-IsQuiet s n)
    AnySteps-IsExclusive (any_more (wakes {q} i {w} e k c) t) h n =
        absurd (quiet-not_called w (All-get_elem? IsQuiet q.execution_waiters i n e) k c)

    -- If the timers do as documented, then however the steps of the coroutines that use one
    -- connection interleave, also with a waiter that goes on whenever its wait ends, after any
    -- steps from the idle queue there is at most one that holds a lease or was taken from the
    -- queue for one, and there is none exactly if no execution is in progress.
    pub steps-exclusive :
        {q : ExecutionQueue T}
        → AnySteps idle_queue q
        → (length q.holders + length q.taken ≤ 1)
          × ((q.execution_in_progress ≡ false) ↔ (length q.holders + length q.taken ≡ 0))
    steps-exclusive {q} s =
        let h = AnySteps-IsExclusive s (refl, λ p. refl) tt in (at_most_one q h, ground arith)
