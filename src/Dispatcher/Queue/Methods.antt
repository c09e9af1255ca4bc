-- ===== src/Dispatcher/Queue/Methods.antt =====
-- The public methods of testing_queue.cpp by cases, with the searches that they make taken apart.
use mathlib.Core.Path.{subst}
use oink_judge.Prelude.{
  ℕ, zero, suc, String, Bool, true, false, ◌&&◌, ◌≡◌, ◌≢◌, refl, ap, none, some, List, [], ◌∷◌,
  ◌++◌, length, if◌then◌else◌, get_elem?, modify, erase_at, All, ok, string_eq, arith, eq_iff, inl,
  inr, Option-cases, Returns, get_elem?-append_length, Bool-cases,
}
use oink_judge.Dispatcher.Queue.{
  Invoker, Slot, TestingQueue, index_of, assign, is_idle, take_first, first_idle, try_invoker,
  push_submission, free_invoker, connect_invoker, disconnect_invoker,
}
use oink_judge.Dispatcher.Queue.Sending.{UniqueIds, give, send-give}

abbrev pub Refuses : String → Slot → Type 0
Refuses s slot = (is_idle slot && slot.invoker.can_test s) ≡ false

-- The first idle invoker that can test the submission, if there is one.
pub first_idle-none :
    (s : String) (slots : List Slot) → first_idle s slots ≡ none → All (Refuses s) slots
unfolding first_idle
first_idle-none s [] e = tt
first_idle-none s (slot ∷ slots) e = (ground arith, first_idle-none s slots (ground arith))

pub first_idle-some :
    (s : String) (slots : List Slot) (i : ℕ)
    → first_idle s slots ≡ some i
    → (slot : Slot) × (get_elem? slots i ≡ some slot)
      × (is_idle slot ≡ true)
      × (slot.invoker.can_test s ≡ true)
unfolding first_idle
first_idle-some s [] i e = cc
first_idle-some s (slot ∷ slots) zero e = (slot, refl, ground arith, ground arith)
first_idle-some s (slot ∷ slots) (suc i) e = first_idle-some s slots i (ground arith)

-- `take_first` splits the list at the first entry that passes.
pub data Split (test : String → Bool) (xs : List String) (s : String) (rest : List String)
    : Type 0 where
  split :
      (before behind : List String)
      → xs ≡ before ++ (s ∷ behind)
      → rest ≡ before ++ behind
      → All (λ x. test x ≡ false) before
      → test s ≡ true
      → Split test xs s rest

pub take_first-none :
    (test : String → Bool) (xs : List String)
    → take_first test xs ≡ none
    → All (λ x. test x ≡ false) xs
unfolding take_first
take_first-none test [] e = tt
take_first-none test (x ∷ xs) e = (ground arith, take_first-none test xs (ground arith))

Split-cons :
    (test : String → Bool) (x : String) {xs : List String} {s : String} {rest : List String}
    → test x ≡ false
    → Split test xs s rest
    → Split test (x ∷ xs) s (x ∷ rest)
Split-cons test x e (split before behind p q a t) =
    split (x ∷ before) behind (ap (λ r. x ∷ r) p) (ap (λ r. x ∷ r) q) (e, a) t

pub take_first-some :
    (test : String → Bool) (xs : List String) (s : String) (rest : List String)
    → take_first test xs ≡ some (s, rest)
    → Split test xs s rest
unfolding take_first
take_first-some test [] s rest e = cc
take_first-some test (x ∷ xs) s rest e = elim (Bool-cases (test x)) [
  | inl hit ↦ split [] xs (ground arith) (ground arith) tt (ground arith)
  | inr miss ↦ elim (Option-cases (take_first test xs)) [
    | inl n ↦ ground arith
    | inr ((t, others), f) ↦
        subst (λ r. Split test (x ∷ xs) s r) (ground arith)
          (Split-cons test x {rest = others} miss (take_first-some test xs s others (ground arith)))
  ]
]

module _ (q : TestingQueue) (u : UniqueIds q.invokers) where
  push-none :
      (s : String)
      → first_idle s q.invokers ≡ none
      → push_submission q s ≡ ok (record q { submissions = q.submissions ++ s ∷ [] })
  unfolding push_submission
  push-none s e = ground arith

  push-some :
      (s : String) (i : ℕ) (slot : Slot)
      → first_idle s q.invokers ≡ some i
      → get_elem? q.invokers i ≡ some slot
      → push_submission q s ≡ ok (record q { invokers = modify q.invokers i (give s) })
  unfolding push_submission
  push-some s i slot e at = ground (arith, send-give q s i slot u at)

  try-none :
      (i : ℕ) (slot : Slot)
      → get_elem? q.invokers i ≡ some slot
      → take_first slot.invoker.can_test q.submissions ≡ none
      → try_invoker q i ≡ ok (q, false)
  unfolding try_invoker
  try-none i slot at e = ground arith

  pub try-some :
      (i : ℕ) (slot : Slot) (s : String) (rest : List String)
      → get_elem? q.invokers i ≡ some slot
      → take_first slot.invoker.can_test q.submissions ≡ some (s, rest)
      → try_invoker q i
        ≡ ok (record { submissions = rest; invokers = modify q.invokers i (give s) }, true)
  unfolding try_invoker
  try-some i slot s rest at e = ground (arith, send-give q s i slot u at)

abbrev pub mark_idle : Slot → Slot
mark_idle = assign ""

abbrev pub idle_slot : Invoker → Slot
idle_slot invoker = record { invoker = invoker; busy_with = "" }

index_of-append :
    (id : String) (slots : List Slot) (slot : Slot)
    → slot.invoker.id ≢ id
    → index_of id slots ≡ none
    → index_of id (slots ++ slot ∷ []) ≡ none
unfolding index_of
index_of-append id [] slot h e = ground (arith, eq_iff slot.invoker.id id)
index_of-append id (s ∷ slots) slot h e = ground (arith, index_of-append id slots slot h)

id-ne_of_index_of :
    (id : String) (slot : Slot) (slots : List Slot)
    → index_of id (slot ∷ slots) ≡ none
    → (id ≢ slot.invoker.id) × (index_of id slots ≡ none)
unfolding index_of
id-ne_of_index_of id slot slots e = (λ p. ground (arith, eq_iff slot.invoker.id id), ground arith)

pub UniqueIds-append :
    (slots : List Slot) (slot : Slot)
    → index_of slot.invoker.id slots ≡ none
    → UniqueIds slots
    → UniqueIds (slots ++ slot ∷ [])
unfolding index_of
UniqueIds-append [] slot e u = (refl, tt)
UniqueIds-append (s ∷ slots) slot e u =
    let (ne, e') = id-ne_of_index_of slot.invoker.id s slots e in
    (index_of-append s.invoker.id slots slot ne u.0, UniqueIds-append slots slot e' u.1)

module _ (P : TestingQueue → Type 0) (q : TestingQueue) (u : UniqueIds q.invokers) where
  pub push_cases :
      (s : String)
      → (All (Refuses s) q.invokers → P (record q { submissions = q.submissions ++ s ∷ [] }))
      → ((i : ℕ) (slot : Slot)
          → get_elem? q.invokers i ≡ some slot
          → is_idle slot ≡ true
          → slot.invoker.can_test s ≡ true
          → P (record q { invokers = modify q.invokers i (give s) }))
      → Returns (push_submission q s) P
  push_cases s queued sent = elim (Option-cases (first_idle s q.invokers)) [
    | inl e ↦ rw (push-none q u s e) (queued (first_idle-none s q.invokers e))
    | inr (i, e) ↦
        let (slot, at, idle, can) = first_idle-some s q.invokers i e in
        rw (push-some q u s i slot e at) (sent i slot at idle can)
  ]

  pub free_cases :
      (id : String) (i : ℕ) (slot : Slot)
      → index_of id q.invokers ≡ some i
      → get_elem? q.invokers i ≡ some slot
      → (All (λ s. slot.invoker.can_test s ≡ false) q.submissions
          → P (record q { invokers = modify q.invokers i mark_idle }))
      → ((s : String) (rest : List String)
          → Split slot.invoker.can_test q.submissions s rest
          → P (record { submissions = rest; invokers = modify q.invokers i (give s) }))
      → Returns (free_invoker q id) P
  unfolding free_invoker
  free_cases id i slot found at idle sent =
      elim (Option-cases (take_first slot.invoker.can_test q.submissions)) [
        | inl e ↦
            rw (found, try-none q u i slot at e, found)
              (idle (take_first-none slot.invoker.can_test q.submissions e))
        | inr ((s, rest), e) ↦
            rw (found, try-some q u i slot s rest at e)
              (sent s rest (take_first-some slot.invoker.can_test q.submissions s rest e))
      ]

  pub connect_cases :
      (invoker : Invoker)
      → index_of invoker.id q.invokers ≡ none
      → (All (λ s. invoker.can_test s ≡ false) q.submissions
          → P (record q { invokers = q.invokers ++ idle_slot invoker ∷ [] }))
      → ((s : String) (rest : List String)
          → Split invoker.can_test q.submissions s rest
          → P (record {
            submissions = rest;
            invokers = modify (q.invokers ++ idle_slot invoker ∷ []) (length q.invokers) (give s);
          }))
      → Returns (connect_invoker q invoker) P
  unfolding connect_invoker
  connect_cases invoker fresh idle sent =
      let q' : TestingQueue = record q { invokers = q.invokers ++ idle_slot invoker ∷ [] } in
      let u' = UniqueIds-append q.invokers (idle_slot invoker) fresh u in
      let at = get_elem?-append_length q.invokers (idle_slot invoker) in
      elim (Option-cases (take_first invoker.can_test q.submissions)) [
        | inl e ↦
            rw (try-none q' u' (length q.invokers) (idle_slot invoker) at e)
              (idle (take_first-none invoker.can_test q.submissions e))
        | inr ((s, rest), e) ↦
            rw (try-some q' u' (length q.invokers) (idle_slot invoker) s rest at e)
              (sent s rest (take_first-some invoker.can_test q.submissions s rest e))
      ]

-- disconnectInvoker needs no search among the submissions.
pub disconnect-eq :
    (q : TestingQueue) (id : String) (i : ℕ) (slot : Slot)
    → index_of id q.invokers ≡ some i
    → get_elem? q.invokers i ≡ some slot
    → disconnect_invoker q id
      ≡ ok (record {
        submissions = if is_idle slot then q.submissions else slot.busy_with ∷ q.submissions;
        invokers = erase_at q.invokers i;
      })
unfolding disconnect_invoker
disconnect-eq q id i slot found at = ground arith
