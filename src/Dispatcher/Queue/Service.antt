-- ===== src/Dispatcher/Queue/Service.antt =====
-- testing_queue.cpp: when a submission waits although an invoker could test it.
use mathlib.Core.Path.{subst}
use mathlib.Core.Bool.{false≢true}
use oink_judge.Prelude.{
  ℕ, zero, suc, erase_at, refl, ap, String, Bool, true, false, ◌≡◌, ◌≢◌, sym, ◌∙◌, none, some, List,
  [], ◌∷◌, ◌++◌, get_elem?, modify, All, ok, string_eq, nat_eq, arith, eq_iff, Returns, All-mono,
  modify-append_length, some_inj, All-unappend, All-both, All-erase_at_ne, All-modify, All-append,
}
use oink_judge.Dispatcher.Queue.{
  Invoker, Slot, TestingQueue, index_of, is_idle, take_first, test_submission, push_submission,
  free_invoker, connect_invoker, disconnect_invoker,
}
use oink_judge.Dispatcher.Queue.Sending.{UniqueIds, give, get_elem?-index_of}
use oink_judge.Dispatcher.Queue.Methods.{
  Split, split, mark_idle, idle_slot, push_cases, free_cases, connect_cases, disconnect-eq,
  try-some,
}

abbrev pub CannotTest : Invoker → String → Type 0
CannotTest invoker s = invoker.can_test s ≡ false

-- No idle invoker can test a submission that waits.
pub record IsServed (q : TestingQueue) : Type 0 where
  pub named : All (λ s. s ≢ "") q.submissions
  pub served :
      All (λ slot. is_idle slot ≡ true → All (CannotTest slot.invoker) q.submissions) q.invokers

module _ (P : String → Type 0) where
  All-Split :
      {test : String → Bool} {xs : List String} {s : String} {rest : List String}
      → Split test xs s rest
      → All P xs
      → P s × All P rest
  All-Split (split before behind p q a t) h =
      let h' = subst (All P) p h in
      let (x, y) = All-unappend P before (_ ∷ behind) h' in
      (y.0, subst (All P) (sym q) (All-append P before behind x y.1))

give_idle : (s : String) (slot : Slot) → s ≢ "" → is_idle (give s slot) ≡ false
unfolding test_submission
give_idle s slot h = ground (arith, eq_iff s "")

module _ (slots : List Slot) (subs : List String) where
  give-IsServed :
      (test : String → Bool) (i : ℕ) (s : String) (rest : List String)
      → Split test subs s rest
      → All (λ t. t ≢ "") subs
      → All (λ slot. is_idle slot ≡ true → All (CannotTest slot.invoker) subs) slots
      → IsServed (record { submissions = rest; invokers = modify slots i (give s) })
  give-IsServed test i s rest sp n v = record {
    named = (All-Split (λ t. t ≢ "") sp n).1;
    served =
        All-modify _ slots i (give s)
          (λ x _ e. absurd (false≢true (sym (give_idle s x (All-Split (λ t. t ≢ "") sp n).0) ∙ e)))
          (All-mono slots (λ slot h e. (All-Split (CannotTest slot.invoker) sp (h e)).1) v);
  }

module _ (q : TestingQueue) (u : UniqueIds q.invokers) (v : IsServed q) where
  -- Where the ids differ and no idle invoker can test a submission that waits, pushSubmission of a
  -- submission with a name returns and leaves it so.
  pub push_submission-IsServed : (s : String) → s ≢ "" → Returns (push_submission q s) IsServed
  push_submission-IsServed s h =
      push_cases IsServed q u s
        (λ r. record {
          named = All-append _ q.submissions (s ∷ []) v.named (h, tt);
          served =
              All-both q.invokers
                (λ slot no w e.
                  All-append (CannotTest slot.invoker) q.submissions (s ∷ []) (w e)
                    (ground arith, tt))
                r v.served;
        })
        (λ i slot at idle can. record {
          named = v.named;
          served =
              All-modify _ q.invokers i (give s)
                (λ x _ e. absurd (false≢true (sym (give_idle s x h) ∙ e))) v.served;
        })

  -- Where the ids differ and no idle invoker can test a submission that waits, freeInvoker of a
  -- connected id returns and leaves it so.
  pub free_invoker-IsServed :
      (id : String) (i : ℕ) → index_of id q.invokers ≡ some i → Returns (free_invoker q id) IsServed
  free_invoker-IsServed id i found =
      let (slot, at, _) = get_elem?-index_of id q.invokers i found in
      free_cases IsServed q u id i slot found at
        (λ no. record {
          named = v.named;
          served =
              All-modify _ q.invokers i mark_idle
                (λ x e _.
                  subst (λ (y : Slot). All (CannotTest y.invoker) q.submissions)
                    (some_inj (sym at ∙ e)) no)
                v.served;
        })
        (λ s rest sp.
          give-IsServed q.invokers q.submissions slot.invoker.can_test i s rest sp v.named v.served)

  -- Where the ids differ and no idle invoker can test a submission that waits, connectInvoker with
  -- a new id returns and leaves it so.
  pub connect_invoker-IsServed :
      (invoker : Invoker)
      → index_of invoker.id q.invokers ≡ none
      → Returns (connect_invoker q invoker) IsServed
  connect_invoker-IsServed invoker fresh =
      connect_cases IsServed q u invoker fresh
        (λ no. record {
          named = v.named;
          served = All-append _ q.invokers _ v.served ((λ _. no), tt);
        })
        (λ s rest sp. rw (modify-append_length q.invokers (idle_slot invoker) (give s)) (record {
          named = (All-Split (λ t. t ≢ "") sp v.named).1;
          served =
              All-append _ q.invokers _
                (All-mono q.invokers (λ slot h e. (All-Split (CannotTest slot.invoker) sp (h e)).1)
                  v.served)
                (
                  (λ e. absurd (
                      false≢true (
                        sym (give_idle s (idle_slot invoker) (All-Split (λ t. t ≢ "") sp v.named).0)
                        ∙ e))),
                  tt,
                );
        }))

-- An element other than the erased one is still in the list.
still_there :
    {A : Type 0} (xs : List A) (i j : ℕ) {x : A}
    → i ≢ j
    → get_elem? xs j ≡ some x
    → (k : ℕ) × (get_elem? (erase_at xs i) k ≡ some x)
still_there [] i j h e = cc
still_there (y ∷ xs) zero zero h e = absurd (h refl)
still_there (y ∷ xs) zero (suc j) h e = (j, e)
still_there (y ∷ xs) (suc i) zero h e = (zero, e)
still_there (y ∷ xs) (suc i) (suc j) h e =
    let (k, at) = still_there xs i j (λ p. h (ap suc p)) e in (suc k, at)

-- When a busy invoker disconnects while another is idle that can test its submission,
-- disconnectInvoker returns with the submission at the head of those that wait and the other
-- invoker among the connected ones, as idle as before: the submission waits beside an invoker for
-- it.
pub disconnect_invoker-not-IsServed :
    (q : TestingQueue) (id : String) (i j : ℕ) (slot other : Slot)
    → index_of id q.invokers ≡ some i
    → get_elem? q.invokers i ≡ some slot
    → get_elem? q.invokers j ≡ some other
    → i ≢ j
    → is_idle slot ≡ false
    → is_idle other ≡ true
    → other.invoker.can_test slot.busy_with ≡ true
    → Returns (disconnect_invoker q id) (λ q'.
      (q'.submissions ≡ slot.busy_with ∷ q.submissions)
      × ((k : ℕ) × (get_elem? q'.invokers k ≡ some other))
      × (¬ IsServed q'))
disconnect_invoker-not-IsServed q id i j slot other found at at' ne busy idle can =
    rw (disconnect-eq q id i slot found at, busy)
      (
        refl,
        still_there q.invokers i j ne at',
        λ v. false≢true (sym (All-erase_at_ne _ q.invokers i j ne at' v.served idle).0 ∙ can),
      )

take_first-append :
    (test : String → Bool) (before behind : List String) (s : String)
    → All (λ x. test x ≡ false) before
    → test s ≡ true
    → take_first test (before ++ (s ∷ behind)) ≡ some (s, before ++ behind)
unfolding take_first
take_first-append test [] behind s a t = ground arith
take_first-append test (x ∷ before) behind s a t =
    ground (arith, take_first-append test before behind s a.1 t)

-- While the ids of the invokers differ, an invoker that reports back is given the oldest waiting
-- submission that it can test, and the order of the others stays.
pub free_serves_oldest :
    (q : TestingQueue) (id : String) (i : ℕ) (slot : Slot) (before behind : List String)
    (s : String)
    → UniqueIds q.invokers
    → index_of id q.invokers ≡ some i
    → get_elem? q.invokers i ≡ some slot
    → q.submissions ≡ before ++ (s ∷ behind)
    → All (CannotTest slot.invoker) before
    → slot.invoker.can_test s ≡ true
    → free_invoker q id
      ≡ ok (record { submissions = before ++ behind; invokers = modify q.invokers i (give s) })
unfolding free_invoker
free_serves_oldest q id i slot before behind s u found at e refused can = ground (
  arith,
  take_first-append slot.invoker.can_test before behind s refused can,
  try-some q u i slot s (before ++ behind) at,
)
