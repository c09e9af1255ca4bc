-- ===== src/Dispatcher/Queue/Duplicates.antt =====
-- connectInvoker of testing_queue.cpp does not ask whether the id is already connected.
use oink_judge.Prelude.{
  ℕ, zero, suc, ◌+◌, String, ◌≡◌, ◌≢◌, refl, some, List, [], ◌∷◌, ◌++◌, length, get_elem?, modify,
  ok, string_eq, nat_eq, arith, Returns, get_elem?-append_length, count_self,
}
use oink_judge.Dispatcher.Queue.{
  Invoker, Slot, TestingQueue, index_of, assign, post, take_first, connect_invoker,
}
use oink_judge.Dispatcher.Queue.Methods.{idle_slot, take_first-some}
use oink_judge.Dispatcher.Queue.Conservation.{
  load, occurrences, load-modify, load-append, count-Split, empty_count,
}

load-modify_same :
    (x : String) (f : Slot → Slot)
    → ((slot : Slot) → (f slot).busy_with ≡ slot.busy_with)
    → (slots : List Slot) (i : ℕ) → load x (modify slots i f) ≡ load x slots
load-modify_same x f h [] i = refl
load-modify_same x f h (slot ∷ slots) zero = rw h
load-modify_same x f h (slot ∷ slots) (suc i) = omega (arith, load-modify_same x f h slots i)

index_of-append_some :
    (id : String) (slots more : List Slot) (i : ℕ)
    → index_of id slots ≡ some i
    → index_of id (slots ++ more) ≡ some i
unfolding index_of
index_of-append_some id [] more i e = cc
index_of-append_some id (slot ∷ slots) more zero e = ground arith
index_of-append_some id (slot ∷ slots) more (suc i) e =
    ground (arith, index_of-append_some id slots more i)

get_elem?-append_some {ℓ} :
    {A : Type ℓ} (xs ys : List A) (i : ℕ) {x : A}
    → get_elem? xs i ≡ some x
    → get_elem? (xs ++ ys) i ≡ some x
get_elem?-append_some [] ys i e = cc
get_elem?-append_some (x ∷ xs) ys zero e = e
get_elem?-append_some (x ∷ xs) ys (suc i) e = get_elem?-append_some xs ys i e

module _ (q : TestingQueue) (invoker : Invoker) (i : ℕ) (s : String) (rest : List String) where
  abbrev with_newcomer : List Slot
  with_newcomer = q.invokers ++ idle_slot invoker ∷ []

  connect_duplicate :
      index_of invoker.id q.invokers ≡ some i
      → take_first invoker.can_test q.submissions ≡ some (s, rest)
      → connect_invoker q invoker
        ≡ ok (record {
          submissions = rest;
          invokers = modify (modify with_newcomer i (assign s)) (length q.invokers) (post s);
        })
  unfolding connect_invoker
  connect_duplicate known taken = ground (
    arith,
    get_elem?-append_length q.invokers (idle_slot invoker),
    index_of-append_some invoker.id q.invokers (idle_slot invoker ∷ []) i known,
  )

-- An invoker that connects under the id of a busy one, while a submission waits that it can test,
-- takes the entry of the busy one over: the submission under test there occurs once less, although
-- nobody has answered for it.
pub connect_duplicate_loses :
    (q : TestingQueue) (invoker : Invoker) (i : ℕ) (slot : Slot) (s : String) (rest : List String)
    → index_of invoker.id q.invokers ≡ some i
    → get_elem? q.invokers i ≡ some slot
    → take_first invoker.can_test q.submissions ≡ some (s, rest)
    → slot.busy_with ≢ ""
    → Returns
        (connect_invoker q invoker)
        (λ q'. occurrences slot.busy_with q' + 1 ≡ occurrences slot.busy_with q)
connect_duplicate_loses q invoker i slot s rest known at taken busy =
    let x = slot.busy_with in
    let newcomer = idle_slot invoker in
    let slots = q.invokers ++ newcomer ∷ [] in
    rw (connect_duplicate q invoker i s rest known taken) (
      omega (
        arith,
        load-modify_same x (post s) (λ _. refl) (modify slots i (assign s)) (length q.invokers),
        load-modify x (assign s) slots i slot
            (get_elem?-append_some q.invokers (newcomer ∷ []) i at),
        load-append x q.invokers (newcomer ∷ []),
        empty_count x busy,
        count-Split x (take_first-some invoker.can_test q.submissions s rest taken),
        count_self x,
      ))
