-- ===== src/Dispatcher/Service/Handling.antt =====
-- dispatcher_service.cpp: what becomes of a submission.
use oink_judge.Prelude.{
  ◌+◌, String, ◌≡◌, ◌≢◌, refl, Option, none, some, [], ◌∷◌, Outcome, ok, thrown, Reply, Returns,
  string_eq, nat_eq, arith, inl, inr, Bool-cases, List, count, count_self,
}
use oink_judge.Dispatcher.Queue.{TestingQueue, push_submission}
use oink_judge.Dispatcher.Queue.Sending.{UniqueIds}
use oink_judge.Dispatcher.Queue.Conservation.{occurrences, occurrences-push_submission}
use oink_judge.Dispatcher.Service.{
  Finish, handled, submission_not_found, internal_error, Service, finish_push, is_there,
  get_submission_manager, hand_over, handle_synced, handle_submission,
}

-- Either the call was handled, and the submission is in the queue once more than before, or the
-- queue is as before.
abbrev pub IsTaken : Service → String → Service × Finish → Type 0
IsTaken service s (service', handled) =
    occurrences s service'.queue ≡ occurrences s service.queue + 1
IsTaken service s (service', _) = service'.queue ≡ service.queue

pushed-IsTaken :
    (service after : Service) (s : String) (r : Outcome TestingQueue)
    → after.queue ≡ service.queue
    → Returns r (λ q. occurrences s q ≡ occurrences s service.queue + count s (s ∷ []))
    → IsTaken service s (finish_push after r)
pushed-IsTaken service after s (ok q) e h = omega (arith, h, count_self s)
pushed-IsTaken service after s (thrown m) e h = e

module _ (service : Service) (s : String) (real : s ≢ "")
    (u : UniqueIds service.queue.invokers) where
  hand_over-IsTaken :
      (managers : Outcome (List String)) → IsTaken service s (hand_over service s managers)
  hand_over-IsTaken (ok managers) =
      pushed-IsTaken service _ s (push_submission service.queue s) refl
        (occurrences-push_submission s real service.queue u s)
  hand_over-IsTaken (thrown e) = refl

  handle_synced-IsTaken :
      (create : Reply) (problem_id : String) (synced : Reply)
      → IsTaken service s (handle_synced create service s problem_id synced)
  unfolding handle_synced
  handle_synced-IsTaken create problem_id (ok _) =
      hand_over-IsTaken (get_submission_manager create problem_id service.submission_managers)
  handle_synced-IsTaken create problem_id (thrown e) = refl

  -- While the ids of the invokers differ, and whatever the database, the content service and the
  -- factory of the submission managers answer:
  -- a submission with a name is in the queue once more than before, if the handler finishes with
  -- OK, and the queue is as before if it finishes with an error.
  pub handle_submission-IsTaken :
      (problem_of_submission : String → Outcome (Option String)) (sync_content : String → Reply)
      (create : Reply)
      → IsTaken service s (handle_submission problem_of_submission sync_content create service s)
  unfolding handle_submission
  handle_submission-IsTaken problem_of_submission sync_content create =
      by_problem (problem_of_submission s)
    where
      by_problem :
          (found : Outcome (Option String))
          → IsTaken service s (elim found [
            | thrown e ↦ (service, internal_error e)
            | ok none ↦ (service, submission_not_found)
            | ok (some problem_id) ↦
                handle_synced create service s problem_id (sync_content problem_id)
          ])
      by_problem (thrown e) = refl
      by_problem (ok none) = refl
      by_problem (ok (some problem_id)) =
          handle_synced-IsTaken create problem_id (sync_content problem_id)

  pushed-handled :
      (after : Service) (r : Outcome TestingQueue) (P : TestingQueue → Type 0)
      → Returns r P
      → (finish_push after r).1 ≡ handled
  pushed-handled after (ok q) P h = refl
  pushed-handled after (thrown e) P h = absurd h

  found-manager :
      (create : Reply) (problem_id : String) (managers : List String)
      → create ≡ ok tt
      → (managers' : List String) × (get_submission_manager create problem_id managers
          ≡ ok managers')
  unfolding get_submission_manager
  found-manager create problem_id managers e = elim (Bool-cases (is_there problem_id managers)) [
    | inl there ↦ (managers, rw there refl)
    | inr new ↦ (problem_id ∷ managers, rw (new, e) refl)
  ]

  synced-handled :
      (create : Reply) (problem_id : String) (synced : Reply)
      → create ≡ ok tt
      → synced ≡ ok tt
      → (handle_synced create service s problem_id synced).1 ≡ handled
  unfolding handle_synced
  synced-handled create problem_id (ok _) c e =
      let (managers, found) = found-manager create problem_id service.submission_managers c in
      rw found (
        pushed-handled _ (push_submission service.queue s) _
          (occurrences-push_submission s real service.queue u s))
  synced-handled create problem_id (thrown m) c e = cc

  -- While the ids of the invokers differ, the handler finishes with OK for a submission with a name
  -- whose problem is in the database and whose content can be synchronised, where the factory has
  -- the type of the submission managers.
  pub handle_submission-handled :
      (problem_of_submission : String → Outcome (Option String)) (sync_content : String → Reply)
      (create : Reply) (problem_id : String)
      → create ≡ ok tt
      → problem_of_submission s ≡ ok (some problem_id)
      → sync_content problem_id ≡ ok tt
      → (handle_submission problem_of_submission sync_content create service s).1 ≡ handled
  unfolding handle_submission
  handle_submission-handled problem_of_submission sync_content create problem_id made known synced =
      rw (known, handle_submission)
        (synced-handled create problem_id (sync_content problem_id) made synced)
