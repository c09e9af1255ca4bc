-- ===== src/Dispatcher/Service.antt =====
-- modules/dispatcher/src/dispatcher_service.cpp, submission_managers_storage.cpp and
-- send_submission_to_invoker.cpp: a submission that comes in. The table of submissions and
-- syncContent are given by what they return.
pub mod Handling
use oink_judge.Prelude.{
  String, Bool, true, false, Option, none, some, List, [], ◌∷◌, ◌==◌, if◌then◌else◌, Outcome, ok,
  thrown, Reply, string_eq,
}
use oink_judge.Dispatcher.Queue.{TestingQueue, push_submission}

-- The status that the call finishes with.
pub data Finish : Type 0 where
  handled : Finish
  submission_not_found : Finish
  internal_error : String → Finish

-- The queue, and the problems that have a submission manager; every manager hands its submissions
-- to the queue.
pub record Service : Type 0 where
  pub queue : TestingQueue
  pub submission_managers : List String

abbrev pub is_there : String → List String → Bool
is_there problem_id [] = false
is_there problem_id (p ∷ managers) = if p == problem_id then true else is_there problem_id managers

-- getSubmissionManager; `create` is what the factory answers for "SendSubmissionToInvoker", which
-- it throws where no such type is registered.
unfoldable pub get_submission_manager : Reply → String → List String → Outcome (List String)
get_submission_manager create problem_id managers =
    if is_there problem_id managers
    then ok managers
    else elim create [ ok _ ↦ ok (problem_id ∷ managers) | thrown e ↦ thrown e ]

-- SendSubmissionToInvoker::handleSubmission, at the end of the handler
abbrev pub finish_push : Service → Outcome TestingQueue → Service × Finish
finish_push service (ok queue) = (record service { queue = queue }, handled)
finish_push service (thrown e) = (service, internal_error e)

-- The handler after getSubmissionManager
abbrev pub hand_over : Service → String → Outcome (List String) → Service × Finish
hand_over service submission_id (thrown e) = (service, internal_error e)
hand_over service submission_id (ok managers) =
    finish_push (record service { submission_managers = managers })
      (push_submission service.queue submission_id)

-- The handler after the problem is known, by the result of syncContent.
unfoldable pub handle_synced : Reply → Service → String → String → Reply → Service × Finish
unfolding get_submission_manager
handle_synced create service submission_id problem_id (thrown e) = (service, internal_error e)
handle_synced create service submission_id problem_id (ok _) =
    hand_over service submission_id
      (get_submission_manager create problem_id service.submission_managers)

-- handleSubmissionHandler
unfoldable pub handle_submission :
    (String → Outcome (Option String))
    → (String → Reply)
    → Reply
    → Service
    → String
    → Service × Finish
unfolding handle_synced
handle_submission problem_of_submission sync_content create service submission_id =
    elim (problem_of_submission submission_id) [
      | thrown e ↦ (service, internal_error e)
      | ok none ↦ (service, submission_not_found)
      | ok (some problem_id) ↦
          handle_synced create service submission_id problem_id (sync_content problem_id)
    ]
