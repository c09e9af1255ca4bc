-- ===== src/Dispatcher/Queue/Assignment.antt =====
-- testing_queue.cpp: the ids stay distinct, and a busy invoker has been sent, as the last thing,
-- the submission that it is busy with, which it can test.
use oink_judge.Prelude.{
  ℕ, String, Bool, true, false, ◌≡◌, refl, none, some, List, [], ◌∷◌, ◌++◌, length, get_elem?,
  modify, All, string_eq, nat_eq, arith, Returns, get_elem?-append_length, All-modify, All-erase_at,
  All-append,
}
use oink_judge.Dispatcher.Queue.{
  Invoker, Slot, TestingQueue, index_of, is_idle, test_submission, push_submission, free_invoker,
  connect_invoker, disconnect_invoker,
}
use oink_judge.Dispatcher.Queue.Sending.{
  UniqueIds, give, get_elem?-index_of, UniqueIds-modify, UniqueIds-erase_at,
}
use oink_judge.Dispatcher.Queue.Methods.{
  Split, split, mark_idle, idle_slot, UniqueIds-append, push_cases, free_cases, connect_cases,
  disconnect-eq,
}

-- The last submission posted to a busy invoker is its own, and it accepted that submission.
abbrev pub IsAssigned : Slot → Type 0
IsAssigned slot =
    is_idle slot ≡ false
    → (slot.invoker.can_test slot.busy_with ≡ true)
      × (before : List String) × (slot.invoker.sent ≡ before ++ slot.busy_with ∷ [])

pub record IsValid (q : TestingQueue) : Type 0 where
  pub unique : UniqueIds q.invokers
  pub assigned : All IsAssigned q.invokers

idle_slot-IsAssigned : (slot : Slot) → is_idle slot ≡ true → IsAssigned slot
idle_slot-IsAssigned slot e h = cc

give-IsAssigned :
    (s : String) (slot : Slot) → slot.invoker.can_test s ≡ true → IsAssigned (give s slot)
unfolding test_submission
give-IsAssigned s slot can h = (can, slot.invoker.sent, refl)

pub give_id : (s : String) (slot : Slot) → (give s slot).invoker.id ≡ slot.invoker.id
unfolding test_submission
give_id s slot = refl

Split-test :
    {test : String → Bool} {xs : List String} {s : String} {rest : List String}
    → Split test xs s rest
    → test s ≡ true
Split-test (split before behind p q a t) = t

module _ (slots : List Slot) (u : UniqueIds slots) (a : All IsAssigned slots) where
  give-IsValid :
      (rest : List String) (s : String) (i : ℕ) (slot : Slot)
      → get_elem? slots i ≡ some slot
      → slot.invoker.can_test s ≡ true
      → IsValid (record { submissions = rest; invokers = modify slots i (give s) })
  give-IsValid rest s i slot at can = record {
    unique = UniqueIds-modify (give s) (give_id s) slots i u;
    assigned = All-modify IsAssigned slots i (give s) (λ x e. give-IsAssigned s x (ground arith)) a;
  }

  mark_idle-IsValid :
      (rest : List String) (i : ℕ)
      → IsValid (record { submissions = rest; invokers = modify slots i mark_idle })
  mark_idle-IsValid rest i = record {
    unique = UniqueIds-modify mark_idle (λ _. refl) slots i u;
    assigned =
        All-modify IsAssigned slots i mark_idle (λ x _. idle_slot-IsAssigned (mark_idle x) refl) a;
  }

module _ (q : TestingQueue) (v : IsValid q) where
  -- pushSubmission to a valid queue returns, and leaves a valid queue: the ids differ, and each
  -- busy invoker was last sent the submission it is busy with, which it can test.
  pub push_submission-IsValid : (s : String) → Returns (push_submission q s) IsValid
  push_submission-IsValid s =
      push_cases IsValid q v.unique s (λ _. record { unique = v.unique; assigned = v.assigned })
        (λ i slot at _ can.
          give-IsValid q.invokers v.unique v.assigned q.submissions s i slot at can)

  -- freeInvoker of an id that is connected to a valid queue returns, and leaves a valid queue.
  pub free_invoker-IsValid :
      (id : String) (i : ℕ) → index_of id q.invokers ≡ some i → Returns (free_invoker q id) IsValid
  free_invoker-IsValid id i found =
      let (slot, at, _) = get_elem?-index_of id q.invokers i found in
      free_cases IsValid q v.unique id i slot found at
        (λ _. mark_idle-IsValid q.invokers v.unique v.assigned q.submissions i)
        (λ s rest sp. give-IsValid q.invokers v.unique v.assigned rest s i slot at (Split-test sp))

  -- connectInvoker to a valid queue returns, and leaves a valid queue, if the id is new.
  pub connect_invoker-IsValid :
      (invoker : Invoker)
      → index_of invoker.id q.invokers ≡ none
      → Returns (connect_invoker q invoker) IsValid
  connect_invoker-IsValid invoker fresh =
      let slot = idle_slot invoker in
      let u = UniqueIds-append q.invokers slot fresh v.unique in
      let a =
        All-append IsAssigned q.invokers (slot ∷ []) v.assigned
          (idle_slot-IsAssigned slot refl, tt) in
      connect_cases IsValid q v.unique invoker fresh (λ _. record { unique = u; assigned = a })
        (λ s rest sp.
          give-IsValid (q.invokers ++ slot ∷ []) u a rest s (length q.invokers) slot
            (get_elem?-append_length q.invokers slot) (Split-test sp))

  -- disconnectInvoker of an id that is connected to a valid queue returns, and leaves a valid
  -- queue.
  pub disconnect_invoker-IsValid :
      (id : String) (i : ℕ)
      → index_of id q.invokers ≡ some i
      → Returns (disconnect_invoker q id) IsValid
  disconnect_invoker-IsValid id i found =
      let (slot, at, _) = get_elem?-index_of id q.invokers i found in
      rw (disconnect-eq q id i slot found at) (record {
        unique = UniqueIds-erase_at q.invokers i v.unique;
        assigned = All-erase_at IsAssigned q.invokers i v.assigned;
      })
