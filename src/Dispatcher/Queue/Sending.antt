-- ===== src/Dispatcher/Queue/Sending.antt =====
-- sendSubmissionForTesting and the two searches of testing_queue.cpp. Where the ids differ, the
-- entry that is marked and the invoker that is posted to are one.
use oink_judge.Prelude.{
  ℕ, zero, suc, String, ◌≡◌, refl, ◌∙◌, none, some, List, [], ◌∷◌, get_elem?, modify, modify-modify,
  erase_at, ok, string_eq, arith, eq_iff,
}
use oink_judge.Dispatcher.Queue.{
  Slot, TestingQueue, index_of, assign, post, send_submission_for_testing,
}

-- No two connected invokers share an id.
abbrev pub UniqueIds : List Slot → Type 0
UniqueIds [] = Unit
UniqueIds (slot ∷ slots) = (index_of slot.invoker.id slots ≡ none) × UniqueIds slots

-- What an entry becomes when it is given a submission.
abbrev pub give : String → Slot → Slot
give submission_id slot = post submission_id (assign submission_id slot)

module _ (f : Slot → Slot) (same_id : (slot : Slot) → (f slot).invoker.id ≡ slot.invoker.id) where
  pub index_of-modify :
      (id : String) (slots : List Slot) (i : ℕ) → index_of id (modify slots i f) ≡ index_of id slots
  unfolding index_of
  index_of-modify id [] i = refl
  index_of-modify id (slot ∷ slots) zero = rw same_id
  index_of-modify id (slot ∷ slots) (suc i) = rw (index_of-modify id slots i)

  pub UniqueIds-modify :
      (slots : List Slot) (i : ℕ) → UniqueIds slots → UniqueIds (modify slots i f)
  UniqueIds-modify [] i u = tt
  UniqueIds-modify (slot ∷ slots) zero u = (rw same_id u.0, u.1)
  UniqueIds-modify (slot ∷ slots) (suc i) u =
      (index_of-modify slot.invoker.id slots i ∙ u.0, UniqueIds-modify slots i u.1)

-- The search by id finds the entry that carries the id.
pub index_of-get_elem? :
    (slots : List Slot) (i : ℕ) (slot : Slot)
    → UniqueIds slots
    → get_elem? slots i ≡ some slot
    → index_of slot.invoker.id slots ≡ some i
unfolding index_of
index_of-get_elem? [] i slot u e = cc
index_of-get_elem? (s ∷ slots) zero slot u e = ground (arith, eq_iff s.invoker.id slot.invoker.id)
index_of-get_elem? (s ∷ slots) (suc i) slot u e =
    ground (arith, eq_iff s.invoker.id slot.invoker.id, index_of-get_elem? slots i slot u.1 e)

pub get_elem?-index_of :
    (id : String) (slots : List Slot) (i : ℕ)
    → index_of id slots ≡ some i
    → (slot : Slot) × (get_elem? slots i ≡ some slot) × (slot.invoker.id ≡ id)
unfolding index_of
get_elem?-index_of id [] i e = cc
get_elem?-index_of id (s ∷ slots) zero e = (s, refl, ground (arith, eq_iff s.invoker.id id))
get_elem?-index_of id (s ∷ slots) (suc i) e = get_elem?-index_of id slots i (ground arith)

pub send-give :
    (q : TestingQueue) (s : String) (i : ℕ) (slot : Slot)
    → UniqueIds q.invokers
    → get_elem? q.invokers i ≡ some slot
    → send_submission_for_testing q s i ≡ ok (record q { invokers = modify q.invokers i (give s) })
unfolding send_submission_for_testing
send-give q s i slot u e =
    rw (e, index_of-get_elem? q.invokers i slot u e, modify-modify q.invokers i (assign s) (post s))

index_of-erase_at :
    (id : String) (slots : List Slot) (i : ℕ)
    → index_of id slots ≡ none
    → index_of id (erase_at slots i) ≡ none
unfolding index_of
index_of-erase_at id [] i e = refl
index_of-erase_at id (slot ∷ slots) zero e = ground arith
index_of-erase_at id (slot ∷ slots) (suc i) e = ground (arith, index_of-erase_at id slots i)

pub UniqueIds-erase_at :
    (slots : List Slot) (i : ℕ) → UniqueIds slots → UniqueIds (erase_at slots i)
UniqueIds-erase_at [] i u = tt
UniqueIds-erase_at (slot ∷ slots) zero u = u.1
UniqueIds-erase_at (slot ∷ slots) (suc i) u =
    (index_of-erase_at slot.invoker.id slots i u.0, UniqueIds-erase_at slots i u.1)
