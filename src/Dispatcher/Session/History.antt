-- ===== src/Dispatcher/Session/History.antt =====
-- Any number of connections of test nodes, and submissions that come in between.
-- `submitted` and `finished` record the history; the program does not keep them.
use oink_judge.Prelude.{
  ℕ, ◌+◌, String, ◌≡◌, ◌≢◌, Option, none, some, List, [], ◌∷◌, ◌++◌, ◌==◌, if◌then◌else◌, get_elem?,
  modify, Outcome, ok, ◌>>=◌, or_throw, after, string_eq, nat_eq, count,
}
use oink_judge.Dispatcher.Queue.{Slot, TestingQueue, empty_queue, index_of, push_submission}
use oink_judge.Dispatcher.Queue.Conservation.{occurrences}
use oink_judge.Dispatcher.Queue.Assignment.{IsValid}
use oink_judge.Dispatcher.Session.{
  Read, handshake, test_submission_response, Session, opening, serving, connect_handler,
}

pub record System : Type 0 where
  pub queue : TestingQueue
  pub sessions : List Session
  pub submitted : List String
  pub finished : List String

abbrev pub empty_system : System
empty_system = record { queue = empty_queue; sessions = []; submitted = []; finished = [] }

pub data Event : Type 0 where
  submit : String → Event
  opened : Event
  incoming : ℕ → Read → Event

-- The submission that the invoker with this id is busy with.
abbrev pub busy_at : List Slot → Option ℕ → List String
busy_at slots none = []
busy_at slots (some i) = elim (get_elem? slots i) [ none ↦ [] | some slot ↦ slot.busy_with ∷ [] ]

-- A response reports the submission that the node was busy with.
abbrev pub finished_by : TestingQueue → Session → Read → List String
finished_by q (serving node_id) test_submission_response =
    busy_at q.invokers (index_of node_id q.invokers)
finished_by q _ _ = []

unfoldable pub step : System → Event → Outcome System
step sys (submit s) = do
  q ← push_submission sys.queue s
  ok (record sys { queue = q; submitted = s ∷ sys.submitted })
step sys opened = ok (record sys { sessions = sys.sessions ++ opening ∷ [] })
step sys (incoming k message) = do
  session ← or_throw (get_elem? sys.sessions k) "no such session"
  (q, session') ← connect_handler sys.queue session message
  ok (record sys {
    queue = q;
    sessions = modify sys.sessions k (λ _. session');
    finished = finished_by sys.queue session message ++ sys.finished;
  })

unfoldable pub run : System → List Event → Outcome System
run sys [] = ok sys
run sys (e ∷ es) = do sys' ← step sys e; run sys' es

-- What the program relies on: a node announces an id that no connected node has.
abbrev pub Announces : TestingQueue → Session → Read → Type 0
Announces q opening (handshake node_id) = index_of node_id q.invokers ≡ none
Announces q _ _ = Unit

abbrev pub IsLegal : System → Event → Type 0
IsLegal sys (submit s) = Unit
IsLegal sys opened = Unit
IsLegal sys (incoming k message) =
    (session : Session) × (get_elem? sys.sessions k ≡ some session)
    × Announces sys.queue session message

abbrev pub IsLegalRun : System → List Event → Type 0
IsLegalRun sys [] = Unit
IsLegalRun sys (e ∷ es) = IsLegal sys e × IsLegalRun (after sys (step sys e)) es

-- How many connected invokers, and how many sessions, have an id.
abbrev pub connected : String → List Slot → ℕ
connected id [] = 0
connected id (slot ∷ slots) = (if slot.invoker.id == id then 1 else 0) + connected id slots

abbrev pub serves : String → Session → ℕ
serves id (serving node_id) = if node_id == id then 1 else 0
serves id _ = 0

abbrev pub serving_count : String → List Session → ℕ
serving_count id [] = 0
serving_count id (session ∷ sessions) = serves id session + serving_count id sessions

-- Each submitted one is waiting, under test or finished, and the sessions are those of the
-- invokers.
pub record IsSound (sys : System) : Type 0 where
  pub valid : IsValid sys.queue
  pub balance :
      (x : String) → x ≢ "" → count x sys.submitted ≡ occurrences x sys.queue + count x sys.finished
  pub linked : (id : String) → serving_count id sys.sessions ≡ connected id sys.queue.invokers
