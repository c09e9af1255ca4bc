-- ===== src/Dispatcher/Tests.antt =====
-- Runs of the dispatcher on small inputs, and the theorems at such inputs.
use mathlib.Core.Bool.{false≢true}
use oink_judge.Prelude.{
  ℕ, get_elem?, ◌+◌, String, Option, some, Outcome, Reply, ◌≡◌, ◌≢◌, refl, sym, List, [], ◌∷◌, ok,
  string_eq, nat_eq, arith, eq_iff, Returns, count,
}
use oink_judge.Dispatcher.Queue.{
  Invoker, Slot, TestingQueue, can_test_all, index_of, take_first, push_submission, test_submission,
  free_invoker, connect_invoker, disconnect_invoker,
}
use oink_judge.Dispatcher.Queue.Conservation.{occurrences, occurrences-push_submission}
use oink_judge.Dispatcher.Queue.Assignment.{IsValid}
use oink_judge.Dispatcher.Queue.Service.{
  free_serves_oldest, IsServed, push_submission-IsServed, disconnect_invoker-not-IsServed,
}
use oink_judge.Dispatcher.Queue.Duplicates.{connect_duplicate_loses}
use oink_judge.Dispatcher.Service.{handled, Service, handle_submission}
use oink_judge.Dispatcher.Service.Handling.{
  IsTaken, handle_submission-IsTaken, handle_submission-handled,
}
use oink_judge.Dispatcher.Session.{
  handshake, test_submission_response, ended, opening, serving, closed, connect_handler,
  finished_ok,
}
use oink_judge.Dispatcher.Session.History.{
  empty_system, Event, submit, opened, incoming, step, run, IsSound,
}
use oink_judge.Dispatcher.Session.Soundness.{run-IsSound, empty_system-IsSound}

-- One node connects, two submissions come, the node answers once and leaves.
abbrev one_node : List Event
one_node =
    opened
    ∷ incoming 0 (handshake "node")
    ∷ submit "a"
    ∷ submit "b"
    ∷ incoming 0 test_submission_response
    ∷ incoming 0 ended
    ∷ []

run_one_node :
    run empty_system one_node
    ≡ ok (record {
      queue = record { submissions = "b" ∷ []; invokers = [] };
      sessions = closed finished_ok ∷ [];
      submitted = "b" ∷ "a" ∷ [];
      finished = "a" ∷ [];
    })
unfolding run step push_submission connect_handler connect_invoker free_invoker disconnect_invoker
    can_test_all
run_one_node = refl

run-IsSound_example : Returns (run empty_system one_node) IsSound
unfolding run step push_submission connect_handler connect_invoker free_invoker disconnect_invoker
    can_test_all
run-IsSound_example =
    run-IsSound empty_system one_node
      (
        tt,
        (
          (opening, refl, refl),
          (tt, (tt, ((serving "node", refl, tt), ((serving "node", refl, tt), tt)))),
        ),
      )
      empty_system-IsSound

abbrev sub_a : String
sub_a = "a"

abbrev sub_b : String
sub_b = "b"

abbrev node : String → List String → Invoker
node id sent = record { id = id; can_test = can_test_all; sent = sent }

abbrev entry : String → String → List String → Slot
entry id busy_with sent = record { invoker = node id sent; busy_with = busy_with }

abbrev idle_queue : TestingQueue
idle_queue = record { submissions = []; invokers = entry "n" "" [] ∷ [] }

abbrev busy_queue : TestingQueue
busy_queue = record { submissions = sub_b ∷ []; invokers = entry "n" sub_a (sub_a ∷ []) ∷ [] }

abbrev waiting_queue : TestingQueue
waiting_queue = record { submissions = sub_b ∷ []; invokers = [] }

abbrev mixed_queue : TestingQueue
mixed_queue = record {
  submissions = [];
  invokers = entry "n" sub_a (sub_a ∷ []) ∷ entry "m" "" [] ∷ [];
}

a_is_named : sub_a ≢ ""
a_is_named = λ e. false≢true ((eq_iff "a" "").1 e)

b_is_named : sub_b ≢ ""
b_is_named = λ e. false≢true ((eq_iff "b" "").1 e)

idle_queue-IsServed : IsServed idle_queue
idle_queue-IsServed = record { named = tt; served = ((λ _. tt), tt) }

busy_queue-IsServed : IsServed busy_queue
busy_queue-IsServed = record {
  named = (b_is_named, tt);
  served = ((λ e. absurd (false≢true e)), tt);
}

idle_queue-IsValid : IsValid idle_queue
unfolding index_of
idle_queue-IsValid = record {
  unique = (refl, tt);
  assigned = ((λ e. absurd (false≢true (sym e))), tt);
}

busy_queue-IsValid : IsValid busy_queue
unfolding can_test_all index_of
busy_queue-IsValid = record { unique = (refl, tt); assigned = ((λ e. (refl, [], refl)), tt) }

occurrences-push_submission_example :
    Returns
      (push_submission busy_queue sub_a)
      (λ q'. occurrences sub_a q' ≡ occurrences sub_a busy_queue + count sub_a (sub_a ∷ []))
occurrences-push_submission_example =
    occurrences-push_submission sub_a a_is_named busy_queue busy_queue-IsValid.unique sub_a

push_submission-IsServed_example : Returns (push_submission idle_queue sub_b) IsServed
push_submission-IsServed_example =
    push_submission-IsServed idle_queue idle_queue-IsValid.unique idle_queue-IsServed sub_b
      b_is_named

free_serves_oldest_example :
    free_invoker busy_queue "n"
    ≡ ok (record { submissions = []; invokers = entry "n" sub_b (sub_a ∷ sub_b ∷ []) ∷ [] })
unfolding can_test_all test_submission index_of
free_serves_oldest_example =
    free_serves_oldest busy_queue "n" 0 (entry "n" sub_a (sub_a ∷ [])) [] [] sub_b
      busy_queue-IsValid.unique refl refl refl tt refl

disconnect_invoker-not-IsServed_example : Returns (disconnect_invoker mixed_queue "n") (λ q'.
    (q'.submissions ≡ sub_a ∷ mixed_queue.submissions)
    × ((k : ℕ) × (get_elem? q'.invokers k ≡ some (entry "m" "" [])))
    × (¬ IsServed q'))
unfolding can_test_all index_of
disconnect_invoker-not-IsServed_example =
    disconnect_invoker-not-IsServed mixed_queue "n" 0 1 (entry "n" sub_a (sub_a ∷ []))
      (entry "m" "" []) refl refl refl (omega arith) refl refl refl

connect_duplicate_loses_example :
    Returns
      (connect_invoker busy_queue (node "n" []))
      (λ q'. occurrences sub_a q' + 1 ≡ occurrences sub_a busy_queue)
unfolding can_test_all index_of take_first
connect_duplicate_loses_example =
    connect_duplicate_loses busy_queue (node "n" []) 0 (entry "n" sub_a (sub_a ∷ [])) sub_b [] refl
      refl refl a_is_named

abbrev known_problem : String → Outcome (Option String)
known_problem submission_id = ok (some "p1")

abbrev always_synced : String → Reply
always_synced problem_id = ok tt

abbrev idle_service : Service
idle_service = record { queue = idle_queue; submission_managers = [] }

handle_submission-IsTaken_example :
    IsTaken idle_service sub_a
      (handle_submission known_problem always_synced (ok tt) idle_service sub_a)
handle_submission-IsTaken_example =
    handle_submission-IsTaken idle_service sub_a a_is_named idle_queue-IsValid.unique known_problem
      always_synced (ok tt)

handle_submission-handled_example :
    (handle_submission known_problem always_synced (ok tt) idle_service sub_a).1 ≡ handled
handle_submission-handled_example =
    handle_submission-handled idle_service sub_a a_is_named idle_queue-IsValid.unique known_problem
      always_synced (ok tt) "p1" refl refl refl
