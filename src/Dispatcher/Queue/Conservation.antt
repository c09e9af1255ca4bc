-- ===== src/Dispatcher/Queue/Conservation.antt =====
-- testing_queue.cpp: no submission is lost or doubled while the ids of the invokers differ.
use oink_judge.Prelude.{
  ℕ, zero, suc, ◌+◌, String, Bool, true, ◌≡◌, ◌≢◌, none, some, List, [], ◌∷◌, ◌++◌, length, ◌==◌,
  if◌then◌else◌, get_elem?, modify, erase_at, string_eq, nat_eq, arith, eq_iff, Returns,
  get_elem?-append_length, count, count-append,
}
use oink_judge.Dispatcher.Queue.{
  Invoker, Slot, TestingQueue, index_of, is_idle, push_submission, free_invoker, connect_invoker,
  disconnect_invoker,
}
use oink_judge.Dispatcher.Queue.Sending.{UniqueIds, give}
use oink_judge.Dispatcher.Queue.Methods.{
  Split, split, mark_idle, idle_slot, push_cases, free_cases, connect_cases, disconnect-eq,
}

-- How many entries are busy with the submission.
abbrev pub load : String → List Slot → ℕ
load x [] = 0
load x (slot ∷ slots) = (if slot.busy_with == x then 1 else 0) + load x slots

-- Waiting or under test.
abbrev pub occurrences : String → TestingQueue → ℕ
occurrences x q = count x q.submissions + load x q.invokers

pub load-modify :
    (x : String) (f : Slot → Slot) (slots : List Slot) (i : ℕ) (slot : Slot)
    → get_elem? slots i ≡ some slot
    → load x (modify slots i f) + count x (slot.busy_with ∷ [])
      ≡ load x slots + count x ((f slot).busy_with ∷ [])
load-modify x f [] i slot e = cc
load-modify x f (s ∷ slots) zero slot e = ground arith
load-modify x f (s ∷ slots) (suc i) slot e = omega (arith, load-modify x f slots i slot e)

pub load-append :
    (x : String) (slots more : List Slot) → load x (slots ++ more) ≡ load x slots + load x more
load-append x [] more = omega arith
load-append x (s ∷ slots) more = omega (arith, load-append x slots more)

load-erase_at :
    (x : String) (slots : List Slot) (i : ℕ) (slot : Slot)
    → get_elem? slots i ≡ some slot
    → load x (erase_at slots i) + count x (slot.busy_with ∷ []) ≡ load x slots
load-erase_at x [] i slot e = cc
load-erase_at x (s ∷ slots) zero slot e = ground arith
load-erase_at x (s ∷ slots) (suc i) slot e = omega (arith, load-erase_at x slots i slot e)

pub count-Split :
    (x : String) {test : String → Bool} {xs : List String} {s : String} {rest : List String}
    → Split test xs s rest
    → count x xs ≡ count x (s ∷ []) + count x rest
count-Split x (split before behind p q a t) =
    rw (p, q) (omega (arith, count-append x before _, count-append x before behind))

-- An idle entry counts for no submission.
idle_count :
    (x : String) (slot : Slot) → x ≢ "" → is_idle slot ≡ true → count x (slot.busy_with ∷ []) ≡ 0
idle_count x slot h e = ground (arith, eq_iff slot.busy_with "", eq_iff slot.busy_with x)

pub empty_count : (x : String) → x ≢ "" → count x ("" ∷ []) ≡ 0
empty_count x h = ground (arith, eq_iff "" x)

module _ (x : String) (real : x ≢ "") (q : TestingQueue) (u : UniqueIds q.invokers) where
  -- While the ids of the invokers differ, pushSubmission returns, and a submission with a name
  -- then occurs once more than before if it is the pushed one, and as often as before if not.
  pub occurrences-push_submission :
      (s : String)
      → Returns (push_submission q s) (λ q'. occurrences x q' ≡ occurrences x q + count x (s ∷ []))
  occurrences-push_submission s =
      push_cases (λ q'. occurrences x q' ≡ occurrences x q + count x (s ∷ [])) q u s
        (λ _. omega (arith, count-append x q.submissions (s ∷ [])))
        (λ i slot at idle _.
          omega (arith, load-modify x (give s) q.invokers i slot at, idle_count x slot real idle))

  -- While the ids of the invokers differ, freeInvoker of a connected id returns, and takes away
  -- exactly the submission that the invoker was busy with, whether or not it is given another.
  pub occurrences-free_invoker :
      (id : String) (i : ℕ) (slot : Slot)
      → index_of id q.invokers ≡ some i
      → get_elem? q.invokers i ≡ some slot
      → Returns
          (free_invoker q id)
          (λ q'. occurrences x q' + count x (slot.busy_with ∷ []) ≡ occurrences x q)
  occurrences-free_invoker id i slot found at =
      free_cases (λ q'. occurrences x q' + count x (slot.busy_with ∷ []) ≡ occurrences x q) q u id i
        slot found at
        (λ _. omega (arith, load-modify x mark_idle q.invokers i slot at, empty_count x real))
        (λ s rest sp. omega (arith, load-modify x (give s) q.invokers i slot at, count-Split x sp))

  -- While the ids of the invokers differ, connectInvoker with a new id returns, and every
  -- submission with a name occurs as often as before.
  pub occurrences-connect_invoker :
      (invoker : Invoker)
      → index_of invoker.id q.invokers ≡ none
      → Returns (connect_invoker q invoker) (λ q'. occurrences x q' ≡ occurrences x q)
  occurrences-connect_invoker invoker fresh =
      let slots = q.invokers ++ idle_slot invoker ∷ [] in
      let more = load-append x q.invokers (idle_slot invoker ∷ []) in
      let at = get_elem?-append_length q.invokers (idle_slot invoker) in
      connect_cases (λ q'. occurrences x q' ≡ occurrences x q) q u invoker fresh
        (λ _. omega (arith, more, empty_count x real))
        (λ s rest sp. omega (
          arith,
          more,
          empty_count x real,
          load-modify x (give s) slots (length q.invokers) (idle_slot invoker) at,
          count-Split x sp,
        ))

  -- While the ids of the invokers differ, disconnectInvoker of a connected id returns, and every
  -- submission with a name occurs as often as before: the one under test waits again.
  pub occurrences-disconnect_invoker :
      (id : String) (i : ℕ) (slot : Slot)
      → index_of id q.invokers ≡ some i
      → get_elem? q.invokers i ≡ some slot
      → Returns (disconnect_invoker q id) (λ q'. occurrences x q' ≡ occurrences x q)
  occurrences-disconnect_invoker id i slot found at =
      rw (disconnect-eq q id i slot found at)
        (ground (arith, load-erase_at x q.invokers i slot at, idle_count x slot real))
