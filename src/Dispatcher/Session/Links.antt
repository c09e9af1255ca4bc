-- ===== src/Dispatcher/Session/Links.antt =====
-- queue_manager_service.cpp and testing_queue.cpp: which ids the invokers and the sessions have.
use oink_judge.Prelude.{
  ℕ, zero, suc, ◌+◌, ◌≤◌, ◌<◌, String, ◌≡◌, refl, ap, none, some, List, [], ◌∷◌, ◌++◌, length, ◌==◌,
  get_elem?, modify, erase_at, string_eq, nat_eq, arith, inl, inr, Returns, Bool-cases, some_inj,
}
use oink_judge.Dispatcher.Queue.{
  Invoker, Slot, TestingQueue, index_of, push_submission, free_invoker, connect_invoker,
  disconnect_invoker,
}
use oink_judge.Dispatcher.Queue.Sending.{UniqueIds, give, get_elem?-index_of}
use oink_judge.Dispatcher.Queue.Methods.{
  mark_idle, idle_slot, push_cases, free_cases, connect_cases, disconnect-eq,
}
use oink_judge.Dispatcher.Queue.Assignment.{give_id}
use oink_judge.Dispatcher.Session.{Session, opening, serving}
use oink_judge.Dispatcher.Session.History.{connected, serves, serving_count}

module _ (id : String) where
  pub connected-modify :
      (f : Slot → Slot)
      → ((slot : Slot) → (f slot).invoker.id ≡ slot.invoker.id)
      → (slots : List Slot) (i : ℕ) → connected id (modify slots i f) ≡ connected id slots
  connected-modify f h [] i = refl
  connected-modify f h (slot ∷ slots) zero = rw h
  connected-modify f h (slot ∷ slots) (suc i) = omega (arith, connected-modify f h slots i)

  pub connected-append :
      (slots more : List Slot)
      → connected id (slots ++ more) ≡ connected id slots + connected id more
  connected-append [] more = omega arith
  connected-append (slot ∷ slots) more = omega (arith, connected-append slots more)

  pub connected-erase_at :
      (slots : List Slot) (i : ℕ) (slot : Slot)
      → get_elem? slots i ≡ some slot
      → connected id (erase_at slots i) + connected id (slot ∷ []) ≡ connected id slots
  connected-erase_at [] i slot e = cc
  connected-erase_at (s ∷ slots) zero slot e = ground arith
  connected-erase_at (s ∷ slots) (suc i) slot e = omega (arith, connected-erase_at slots i slot e)

  pub index_of-connected :
      (slots : List Slot) → 0 < connected id slots → (i : ℕ) × (index_of id slots ≡ some i)
  unfolding index_of
  index_of-connected [] h = absurd (omega arith)
  index_of-connected (slot ∷ slots) h = elim (Bool-cases (slot.invoker.id == id)) [
    | inl hit ↦ (0, rw hit)
    | inr miss ↦ let (i, e) = index_of-connected slots (ground arith) in (suc i, ground arith)
  ]

  pub serving_count-modify :
      (sessions : List Session) (k : ℕ) (old new : Session)
      → get_elem? sessions k ≡ some old
      → serving_count id (modify sessions k (λ _. new)) + serves id old
        ≡ serving_count id sessions + serves id new
  serving_count-modify [] k old new e = cc
  serving_count-modify (s ∷ sessions) zero old new e = ground (arith, ap (serves id) (some_inj e))
  serving_count-modify (s ∷ sessions) (suc k) old new e =
      omega (arith, serving_count-modify sessions k old new e)

  pub serving_count-append :
      (sessions : List Session)
      → serving_count id (sessions ++ opening ∷ []) ≡ serving_count id sessions
  serving_count-append [] = refl
  serving_count-append (s ∷ sessions) = omega (arith, serving_count-append sessions)

  pub serves-le :
      (sessions : List Session) (k : ℕ) (s : Session)
      → get_elem? sessions k ≡ some s
      → serves id s ≤ serving_count id sessions
  serves-le [] k s e = cc
  serves-le (t ∷ sessions) zero s e = omega (arith, ap (serves id) (some_inj e))
  serves-le (t ∷ sessions) (suc k) s e = omega (arith, serves-le sessions k s e)

module _ (id : String) (q : TestingQueue) (u : UniqueIds q.invokers) where
  abbrev pub SameIds : TestingQueue → Type 0
  SameIds q' = connected id q'.invokers ≡ connected id q.invokers

  pub connected-push_submission : (s : String) → Returns (push_submission q s) SameIds
  connected-push_submission s =
      push_cases SameIds q u s (λ _. refl)
        (λ i slot _ _ _. connected-modify id (give s) (give_id s) q.invokers i)

  pub connected-free_invoker :
      (node : String) (i : ℕ)
      → index_of node q.invokers ≡ some i
      → Returns (free_invoker q node) SameIds
  connected-free_invoker node i found =
      let (slot, at, _) = get_elem?-index_of node q.invokers i found in
      free_cases SameIds q u node i slot found at
        (λ _. connected-modify id mark_idle (λ _. refl) q.invokers i)
        (λ s _ _. connected-modify id (give s) (give_id s) q.invokers i)

  pub connected-connect_invoker :
      (invoker : Invoker)
      → index_of invoker.id q.invokers ≡ none
      → Returns (connect_invoker q invoker) (λ q'.
        connected id q'.invokers ≡ connected id q.invokers + serves id (serving invoker.id))
  connected-connect_invoker invoker fresh =
      let slots = q.invokers ++ idle_slot invoker ∷ [] in
      let more = connected-append id q.invokers (idle_slot invoker ∷ []) in
      connect_cases _ q u invoker fresh (λ _. omega (arith, more))
        (λ s _ _.
          omega (arith, more, connected-modify id (give s) (give_id s) slots (length q.invokers)))

  pub connected-disconnect_invoker :
      (node : String) (i : ℕ)
      → index_of node q.invokers ≡ some i
      → Returns
          (disconnect_invoker q node)
          (λ q'. connected id q'.invokers + serves id (serving node) ≡ connected id q.invokers)
  connected-disconnect_invoker node i found =
      let (slot, at, same) = get_elem?-index_of node q.invokers i found in
      rw (disconnect-eq q node i slot found at, ← same)
        (omega (arith, connected-erase_at id q.invokers i slot at))
