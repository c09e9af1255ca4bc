-- ===== src/Database/ExecutionQueue/Fair.antt =====
-- The order of the leases, and that a coroutine that waits in time is served.
use mathlib.Core.List.{append_assoc, append-nil, map-append}
use oink_judge.Prelude.{
  ℕ, zero, suc, ◌≤◌, Bool, true, false, ◌≡◌, refl, sym, ap, ◌∙◌, some, some_inj, erase_at, List, [],
  ◌∷◌, ◌++◌, map, length, if◌then◌else◌, get_elem?, modify, arith,
}
use oink_judge.Database.ExecutionQueue.{
  Timers, ExecutionQueue, Waiter, Step, enters, starts_wait, waits_late, goes_on, releases, Steps,
  done, more, idle_queue, acquire_execution_queue, release_execution_queue, start_wait, cancel_wait,
  new_waiter, enter, pass_on, drop_holder, go_on,
}
use oink_judge.Database.ExecutionQueue.Exclusive.{
  IsExclusive, Step-IsExclusive, at_most_one, both_empty,
}

abbrev coroutines : {T : Type 0} → List (Waiter T) → List ℕ
coroutines = map Waiter.coroutine

-- Those who came are those who got a lease, then those on their way to one, then the queue.
abbrev InOrder : {T : Type 0} → ExecutionQueue T → Type 0
InOrder q = q.arrived ≡ q.granted ++ (coroutines q.taken ++ coroutines q.execution_waiters)

coroutines-modify :
    {T : Type 0} (timers : Timers T) (ws : List (Waiter T)) (i : ℕ)
    → coroutines (modify ws i (start_wait timers)) ≡ coroutines ws
coroutines-modify timers [] i = refl
coroutines-modify timers (w ∷ ws) zero = refl
coroutines-modify timers (w ∷ ws) (suc i) =
    ap (λ r. w.coroutine ∷ r) (coroutines-modify timers ws i)

queue_order :
    (came got going queued : List ℕ) (c : ℕ)
    → came ≡ got ++ (going ++ queued)
    → came ++ c ∷ [] ≡ got ++ (going ++ (queued ++ c ∷ []))
queue_order came got going queued c h = rw h (simp append_assoc)

grant_order :
    (came got going queued : List ℕ) (c : ℕ)
    → going ≡ []
    → queued ≡ []
    → came ≡ got ++ (going ++ queued)
    → came ++ c ∷ [] ≡ got ++ c ∷ [] ++ (going ++ queued)
grant_order came got going queued c g q h = rw h (rw g (rw q (simp (append-nil))))

module _ {T : Type 0} (timers : Timers T) where
  enter-InOrder :
      (b : Bool) (coroutine : ℕ) (q : ExecutionQueue T)
      → q.execution_in_progress ≡ b
      → IsExclusive q
      → InOrder q
      → InOrder (enter timers b coroutine q)
  enter-InOrder true coroutine q e x h =
      queue_order q.arrived q.granted (coroutines q.taken) (coroutines q.execution_waiters)
        coroutine h
      ∙ ap (λ r. q.granted ++ (coroutines q.taken ++ r))
          (sym (map-append Waiter.coroutine q.execution_waiters (new_waiter timers coroutine ∷ [])))
  enter-InOrder false coroutine q e x h =
      let none_held = both_empty q.holders q.taken (x.0 ∙ ap (λ b. if b then 1 else 0) e) in
      grant_order q.arrived q.granted (coroutines q.taken) (coroutines q.execution_waiters)
        coroutine (ap coroutines none_held.1) (ap coroutines (x.1 e)) h

  pass_on-InOrder :
      (waiters : List (Waiter T)) (q : ExecutionQueue T)
      → q.execution_waiters ≡ waiters
      → InOrder q
      → InOrder (pass_on timers waiters q)
  pass_on-InOrder [] q e h = h
  pass_on-InOrder (w ∷ waiters) q e h =
      h
      ∙ ap (λ r. q.granted ++ (coroutines q.taken ++ coroutines r)) e
      ∙ ap (λ r. q.granted ++ r)
          (sym (append_assoc (coroutines q.taken) (w.coroutine ∷ []) (coroutines waiters))
            ∙ ap (λ r. r ++ coroutines waiters)
                (sym (map-append Waiter.coroutine q.taken (cancel_wait timers w ∷ []))))

  only_taken :
      (taken : List (Waiter T)) (i : ℕ) {w : Waiter T}
      → length taken ≤ 1
      → get_elem? taken i ≡ some w
      → (taken ≡ w ∷ []) × (i ≡ 0)
  only_taken [] i k e = cc
  only_taken (v ∷ []) zero k e = (ap (λ r. r ∷ []) (some_inj e), refl)
  only_taken (v ∷ []) (suc i) k e = cc
  only_taken (v ∷ u ∷ vs) i k e = absurd (omega arith)

  go_on-InOrder :
      (q : ExecutionQueue T) (i : ℕ) (w : Waiter T)
      → (q.taken ≡ w ∷ []) × (i ≡ 0)
      → InOrder q
      → InOrder (go_on timers i w q)
  go_on-InOrder q i w (last, here) h =
      let gone : erase_at q.taken i ≡ [] = rw here (rw last refl) in
      h
      ∙ ap (λ r. q.granted ++ (coroutines r ++ coroutines q.execution_waiters)) last
      ∙ sym (append_assoc q.granted (w.coroutine ∷ []) (coroutines q.execution_waiters))
      ∙ ap (λ r. q.granted ++ w.coroutine ∷ [] ++ (coroutines r ++ coroutines q.execution_waiters))
          (sym gone)

  Step-InOrder : {q r : ExecutionQueue T} → Step timers q r → IsExclusive q → InOrder q → InOrder r
  unfolding acquire_execution_queue release_execution_queue
  Step-InOrder (enters {q} coroutine) x h =
      enter-InOrder q.execution_in_progress coroutine q refl x h
  Step-InOrder (starts_wait {q} i e k) x h = rw (coroutines-modify timers q.execution_waiters i) h
  Step-InOrder (waits_late {q} i e k) x h = rw (coroutines-modify timers q.taken i) h
  Step-InOrder (goes_on {q} i {w} e k c) x h =
      go_on-InOrder q i w (only_taken q.taken i (omega (arith, at_most_one timers q x)) e) h
  Step-InOrder (releases {q} i e) x h = pass_on-InOrder q.execution_waiters (drop_holder i q) refl h

  Steps-InOrder :
      {q r : ExecutionQueue T} → Steps timers q r → IsExclusive q → InOrder q → InOrder r
  Steps-InOrder done x h = h
  Steps-InOrder (more s t) x h = Steps-InOrder t (Step-IsExclusive timers s x) (Step-InOrder s x h)

  -- After any steps from the idle queue, the coroutines got their leases in the order in which they
  -- came to `acquireExecutionQueue`, none twice for one call: those that came are those that got a
  -- lease, then the ones taken from the queue for a lease, then the queue.
  pub steps-in_order :
      {q : ExecutionQueue T}
      → Steps timers idle_queue q
      → q.arrived
        ≡ q.granted ++ (map Waiter.coroutine q.taken ++ map Waiter.coroutine q.execution_waiters)
  steps-in_order s = Steps-InOrder s (refl, λ p. refl) refl
