-- ===== src/Database/ExecutionQueue/Lost.antt =====
-- What happens if a lease is destroyed between `push_back(waiter)` and the `async_wait` of the next
-- coroutine in the queue.
use mathlib.Core.Path.{subst}
use oink_judge.Prelude.{
  sym, ap, ◌∙◌, some_inj, modify, ℕ, zero, suc, ◌+◌, Bool, true, false, ◌≡◌, refl, some, List, [],
  ◌∷◌, length, ◌⊎◌, inl, inr, get_elem?,
}
use oink_judge.Database.ExecutionQueue.{
  Timers, TimerLaws, ExecutionQueue, Waiter, Step, enters, starts_wait, waits_late, goes_on,
  releases, Steps, done, more, idle_queue, acquire_execution_queue, release_execution_queue,
  start_wait, cancel_wait, new_waiter, enter, drop_holder,
}
use oink_judge.Database.ExecutionQueue.Exclusive.{both_empty, reachable-IsExclusive, at_release}

-- A waiter that will not hear of the cancellation: it came before the wait.
abbrev IsDeaf : {T : Type 0} → Timers T → Waiter T → Type 0
IsDeaf timers w =
    ((w.waits ≡ false) × (w.timer ≡ timers.fresh))
    ⊎ ((w.waits ≡ true) × (timers.is_called w.timer ≡ false))

-- The one waiter that was taken is deaf, and nobody holds a lease.
record IsLost {T : Type 0} (timers : Timers T) (granted : List ℕ) (q : ExecutionQueue T)
    : Type 0 where
  in_progress : q.execution_in_progress ≡ true
  unheld : q.holders ≡ []
  kept : q.granted ≡ granted
  waiter : Waiter T
  last : q.taken ≡ waiter ∷ []
  deaf : IsDeaf timers waiter

module _ {T : Type 0} (timers : Timers T) (laws : TimerLaws timers) where
  late-IsDeaf :
      (w : Waiter T) → w.waits ≡ false → IsDeaf timers w → IsDeaf timers (start_wait timers w)
  late-IsDeaf w k (inl (e, fresh)) = inr (refl, rw fresh (laws.never_expires))
  late-IsDeaf w k (inr (e, c)) = cc

  enter-IsLost :
      (b : Bool) (coroutine : ℕ) {g : List ℕ} (q : ExecutionQueue T)
      → q.execution_in_progress ≡ b
      → IsLost timers g q
      → IsLost timers g (enter timers b coroutine q)
  enter-IsLost true coroutine q e h = record {
    in_progress = h.in_progress;
    unheld = h.unheld;
    kept = h.kept;
    waiter = h.waiter;
    last = h.last;
    deaf = h.deaf;
  }
  enter-IsLost false coroutine q e h = cc (e, h.in_progress)

  alone : (i : ℕ) {v w : Waiter T} → get_elem? (v ∷ []) i ≡ some w → (i ≡ 0) × (v ≡ w)
  alone zero e = (refl, some_inj e)
  alone (suc i) e = cc

  taken_alone :
      (taken : List (Waiter T)) (i : ℕ) {v w : Waiter T}
      → taken ≡ v ∷ []
      → get_elem? taken i ≡ some w
      → (i ≡ 0) × (v ≡ w)
  taken_alone taken i last e = alone i (sym (ap (λ t. get_elem? t i) last) ∙ e)

  waits_late-IsLost :
      (q : ExecutionQueue T) (i : ℕ) {w : Waiter T} {g : List ℕ} (h : IsLost timers g q)
      → (i ≡ 0) × (h.waiter ≡ w)
      → w.waits ≡ false
      → IsLost timers g (record q { taken = modify q.taken i (start_wait timers) })
  waits_late-IsLost q i h (here, same) k = record {
    in_progress = h.in_progress;
    unheld = h.unheld;
    kept = h.kept;
    waiter = start_wait timers h.waiter;
    last = rw here (rw h.last refl);
    deaf = late-IsDeaf h.waiter (cc) h.deaf;
  }

  deaf-not_called :
      (w : Waiter T) → IsDeaf timers w → w.waits ≡ true → timers.is_called w.timer ≡ true → ⊥
  deaf-not_called w (inl d) k c = cc
  deaf-not_called w (inr d) k c = cc

  Step-IsLost :
      {q r : ExecutionQueue T} {g : List ℕ}
      → Step timers q r
      → IsLost timers g q
      → IsLost timers g r
  unfolding acquire_execution_queue
  Step-IsLost (enters {q} coroutine) h = enter-IsLost q.execution_in_progress coroutine q refl h
  Step-IsLost (starts_wait {q} i e k) h = record {
    in_progress = h.in_progress;
    unheld = h.unheld;
    kept = h.kept;
    waiter = h.waiter;
    last = h.last;
    deaf = h.deaf;
  }
  Step-IsLost (waits_late {q} i {w} e k) h =
      waits_late-IsLost q i h (taken_alone q.taken i h.last e) k
  Step-IsLost (goes_on {q} i {w} e k c) h =
      let same = (taken_alone q.taken i h.last e).1 in
      absurd (deaf-not_called w (subst (IsDeaf timers) same h.deaf) k c)
  Step-IsLost (releases {q} i e) h = cc (e, h.unheld)

  Steps-IsLost :
      {q r : ExecutionQueue T} {g : List ℕ}
      → Steps timers q r
      → IsLost timers g q
      → IsLost timers g r
  Steps-IsLost done h = h
  Steps-IsLost (more s t) h = Steps-IsLost t (Step-IsLost s h)

  release-IsLost :
      (q : ExecutionQueue T) (b : ℕ) {waiters : List (Waiter T)}
      → (length q.holders + length q.taken ≡ 0) × (q.execution_in_progress ≡ true)
      → q.execution_waiters ≡ new_waiter timers b ∷ waiters
      → IsLost timers q.granted (release_execution_queue timers q)
  unfolding release_execution_queue
  release-IsLost q b h e = rw e (record {
    in_progress = h.1;
    unheld = (both_empty q.holders q.taken h.0).0;
    kept = refl;
    waiter = cancel_wait timers (new_waiter timers b);
    last = rw (both_empty q.holders q.taken h.0).1 refl;
    deaf = inl (refl, laws.ignores_idle);
  })

  -- If a lease is destroyed when the first waiter in the queue has not come to its `async_wait`,
  -- then no coroutine gets a lease of this connection ever after, whatever steps follow.
  pub release-loses :
      {q r : ExecutionQueue T} (i : ℕ) {coroutine : ℕ} (b : ℕ) {waiters : List (Waiter T)}
      → Steps timers idle_queue q
      → get_elem? q.holders i ≡ some coroutine
      → q.execution_waiters ≡ new_waiter timers b ∷ waiters
      → Steps timers (release_execution_queue timers (drop_holder i q)) r
      → (r.holders ≡ []) × (r.granted ≡ q.granted)
  release-loses {q} i b s held e t =
      let h = at_release timers q i held (reachable-IsExclusive timers s).0 in
      let lost = Steps-IsLost t (release-IsLost (drop_holder i q) b h e) in (lost.unheld, lost.kept)
