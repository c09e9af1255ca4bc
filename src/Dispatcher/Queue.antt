-- ===== src/Dispatcher/Queue.antt =====
-- modules/dispatcher/src/testing_queue.cpp and invoker.cpp. Logging is left out, and the texts of
-- the exceptions are cut to their fixed part.
pub mod Sending
pub mod Methods
pub mod Conservation
pub mod Assignment
pub mod Service
pub mod Duplicates
use oink_judge.Prelude.{
  ℕ, suc, String, Bool, true, false, ◌&&◌, Option, none, some, List, [], ◌∷◌, ◌++◌, length, ◌==◌,
  if◌then◌else◌, get_elem?, modify, erase_at, Outcome, ok, ◌>>=◌, or_throw, string_eq,
}

-- class Invoker. `can_test` is the virtual method. `sent` holds what was posted to the channel,
-- oldest first.
pub record Invoker : Type 0 where
  pub id : String
  pub can_test : String → Bool
  pub sent : List String

-- Invoker::canTestSubmission, as the class has it
unfoldable pub can_test_all : String → Bool
can_test_all submission_id = true

-- Invoker::testSubmission
unfoldable pub test_submission : Invoker → String → Invoker
test_submission invoker submission_id = record invoker { sent = invoker.sent ++ submission_id ∷ [] }

-- An entry of connected_invokers_; an empty `busy_with` means idle.
pub record Slot : Type 0 where
  pub invoker : Invoker
  pub busy_with : String

pub record TestingQueue : Type 0 where
  pub submissions : List String
  pub invokers : List Slot

abbrev pub empty_queue : TestingQueue
empty_queue = record { submissions = []; invokers = [] }

abbrev pub is_idle : Slot → Bool
is_idle slot = slot.busy_with == ""

-- findInvokerIndexById
unfoldable pub index_of : String → List Slot → Option ℕ
index_of invoker_id [] = none
index_of invoker_id (slot ∷ slots) =
    if slot.invoker.id == invoker_id
    then some 0
    else elim (index_of invoker_id slots) [ none ↦ none | some i ↦ some (suc i) ]

unfoldable pub find_invoker_index : TestingQueue → String → Outcome ℕ
unfolding index_of
find_invoker_index q invoker_id = or_throw (index_of invoker_id q.invokers) "Invoker not found."

-- `.second = submission_id` at an index
abbrev pub assign : String → Slot → Slot
assign submission_id slot = record slot { busy_with = submission_id }

-- `->testSubmission(submission_id)` at an index
abbrev pub post : String → Slot → Slot
post submission_id slot = record slot { invoker = test_submission slot.invoker submission_id }

-- sendSubmissionForTesting. The code is handed a reference to an invoker, here its position `at`;
-- it marks as busy the entry that a search by id finds, and posts to the invoker at hand.
unfoldable pub send_submission_for_testing : TestingQueue → String → ℕ → Outcome TestingQueue
unfolding find_invoker_index test_submission
send_submission_for_testing q submission_id at = do
  slot ← or_throw (get_elem? q.invokers at) "dangling reference"
  index ← find_invoker_index q slot.invoker.id
  let marked = modify q.invokers index (assign submission_id)
  ok (record q { invokers = modify marked at (post submission_id) })

-- The loop of tryInvoker: the first submission that the test passes, and the others.
unfoldable pub take_first : (String → Bool) → List String → Option (String × List String)
take_first test [] = none
take_first test (s ∷ rest) =
    if test s
    then some (s, rest)
    else elim (take_first test rest) [ none ↦ none | some (t, others) ↦ some (t, s ∷ others) ]

-- tryInvoker
unfoldable pub try_invoker : TestingQueue → ℕ → Outcome (TestingQueue × Bool)
unfolding take_first send_submission_for_testing
try_invoker q at = do
  slot ← or_throw (get_elem? q.invokers at) "dangling reference"
  elim (take_first slot.invoker.can_test q.submissions) [
    | none ↦ ok (q, false)
    | some (s, rest) ↦ do
      sent ← send_submission_for_testing q s at
      ok (record sent { submissions = rest }, true)
  ]

-- The loop of trySubmission: the first idle invoker that can test the submission.
unfoldable pub first_idle : String → List Slot → Option ℕ
first_idle submission_id [] = none
first_idle submission_id (slot ∷ slots) =
    if is_idle slot && slot.invoker.can_test submission_id
    then some 0
    else elim (first_idle submission_id slots) [ none ↦ none | some i ↦ some (suc i) ]

-- trySubmission
unfoldable pub try_submission : TestingQueue → String → Outcome (TestingQueue × Bool)
unfolding first_idle send_submission_for_testing
try_submission q submission_id = elim (first_idle submission_id q.invokers) [
  | none ↦ ok (q, false)
  | some at ↦ do sent ← send_submission_for_testing q submission_id at; ok (sent, true)
]

-- pushSubmission
unfoldable pub push_submission : TestingQueue → String → Outcome TestingQueue
unfolding try_submission
push_submission q submission_id = do
  (q', taken) ← try_submission q submission_id
  if taken then ok q' else ok (record q' { submissions = q'.submissions ++ submission_id ∷ [] })

-- freeInvoker
unfoldable pub free_invoker : TestingQueue → String → Outcome TestingQueue
unfolding try_invoker find_invoker_index
free_invoker q invoker_id = do
  at ← find_invoker_index q invoker_id
  (q', taken) ← try_invoker q at
  if taken then ok q' else do
    index ← find_invoker_index q' invoker_id
    ok (record q' { invokers = modify q'.invokers index (assign "") })

-- connectInvoker
unfoldable pub connect_invoker : TestingQueue → Invoker → Outcome TestingQueue
unfolding try_invoker
connect_invoker q invoker = do
  let slot : Slot = record { invoker = invoker; busy_with = "" }
  (q', taken) ← try_invoker (record q { invokers = q.invokers ++ slot ∷ [] }) (length q.invokers)
  ok q'

-- disconnectInvoker
unfoldable pub disconnect_invoker : TestingQueue → String → Outcome TestingQueue
unfolding find_invoker_index
disconnect_invoker q invoker_id = do
  index ← find_invoker_index q invoker_id
  slot ← or_throw (get_elem? q.invokers index) "dangling reference"
  let back = if is_idle slot then q.submissions else slot.busy_with ∷ q.submissions
  ok (record { submissions = back; invokers = erase_at q.invokers index })
