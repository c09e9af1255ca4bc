-- ===== src/Dispatcher/Session/Soundness.antt =====
-- Whatever the nodes and the submitters do, in any order, no call throws and every submission is
-- accounted for, as long as ids of connected nodes differ.
use mathlib.Core.Path.{subst}
use oink_judge.Prelude.{
  ℕ, ◌+◌, String, ◌≡◌, ◌≢◌, refl, sym, none, some, List, [], ◌∷◌, get_elem?, Outcome, ok, thrown,
  ◌>>=◌, after, string_eq, nat_eq, arith, eq_iff, Returns, Returns-mono, Returns-bind, count,
  count-append,
}
use oink_judge.Dispatcher.Queue.{
  Slot, TestingQueue, index_of, push_submission, free_invoker, connect_invoker, disconnect_invoker,
}
use oink_judge.Dispatcher.Queue.Sending.{get_elem?-index_of}
use oink_judge.Dispatcher.Queue.Conservation.{
  occurrences, occurrences-push_submission, occurrences-free_invoker, occurrences-connect_invoker,
  occurrences-disconnect_invoker,
}
use oink_judge.Dispatcher.Queue.Assignment.{
  IsValid, push_submission-IsValid, free_invoker-IsValid, connect_invoker-IsValid,
  disconnect_invoker-IsValid,
}
use oink_judge.Dispatcher.Session.{
  Read, handshake, test_submission_response, other_message, ended, Session, opening, serving,
  closed, connect_handler, make_invoker, finished_ok,
}
use oink_judge.Dispatcher.Session.History.{
  System, empty_system, Event, submit, opened, incoming, busy_at, finished_by, step, run, Announces,
  IsLegal, IsLegalRun, connected, serves, IsSound,
}
use oink_judge.Dispatcher.Session.Links.{
  index_of-connected, serving_count-modify, serving_count-append, serves-le,
  connected-push_submission, connected-free_invoker, connected-connect_invoker,
  connected-disconnect_invoker,
}

-- What one message of one session does to the queue.
record Handled (q : TestingQueue) (session : Session) (message : Read) (r : TestingQueue × Session)
    : Type 0 where
  valid : IsValid r.0
  kept :
      (x : String)
      → x ≢ ""
      → occurrences x r.0 + count x (finished_by q session message) ≡ occurrences x q
  ids :
      (id : String)
      → connected id r.0.invokers + serves id session ≡ connected id q.invokers + serves id r.1

unchanged-Handled :
    (q : TestingQueue) (session session' : Session) (message : Read)
    → IsValid q
    → finished_by q session message ≡ []
    → ((id : String) → serves id session ≡ serves id session')
    → Handled q session message (q, session')
unchanged-Handled q session session' message v e s = record {
  valid = v;
  kept = λ x h. rw e (omega arith);
  ids = λ id. omega (arith, s id);
}

-- Facts about one call, put together; two of them are about every text.
Returns-facts :
    (m : Outcome TestingQueue) (next : Session) (q : TestingQueue) (session : Session)
    (message : Read)
    → Returns m IsValid
    → ((x : String)
        → x ≢ ""
        → Returns m
            (λ q'. occurrences x q' + count x (finished_by q session message) ≡ occurrences x q))
    → ((id : String)
        → Returns m (λ q'.
          connected id q'.invokers + serves id session ≡ connected id q.invokers + serves id next))
    → Returns (m >>= λ q'. ok (q', next)) (Handled q session message)
Returns-facts (ok q') next q session message v k i = record { valid = v; kept = k; ids = i }
Returns-facts (thrown e) next q session message v k i = absurd v

busy_at-index_of :
    (node : String) (slots : List Slot) (i : ℕ) (slot : Slot)
    → index_of node slots ≡ some i
    → get_elem? slots i ≡ some slot
    → busy_at slots (index_of node slots) ≡ slot.busy_with ∷ []
busy_at-index_of node slots i slot found at = ground arith

module _ (q : TestingQueue) (v : IsValid q) where
  handshake-Handled :
      (node : String)
      → index_of node q.invokers ≡ none
      → Returns (connect_handler q opening (handshake node)) (Handled q opening (handshake node))
  unfolding connect_handler
  handshake-Handled node fresh =
      let invoker = make_invoker node in
      Returns-facts (connect_invoker q invoker) (serving node) q opening (handshake node)
        (connect_invoker-IsValid q v invoker fresh)
        (λ x h.
          Returns-mono (connect_invoker q invoker) _ _ (λ q' e. omega arith)
            (occurrences-connect_invoker x h q v.unique invoker fresh))
        (λ id.
          Returns-mono (connect_invoker q invoker) _ _ (λ q' e. omega arith)
            (connected-connect_invoker id q v.unique invoker fresh))

  response-Handled :
      (node : String) (i : ℕ)
      → index_of node q.invokers ≡ some i
      → Returns
          (connect_handler q (serving node) test_submission_response)
          (Handled q (serving node) test_submission_response)
  unfolding connect_handler
  response-Handled node i found =
      let (slot, at, _) = get_elem?-index_of node q.invokers i found in
      Returns-facts (free_invoker q node) (serving node) q (serving node) test_submission_response
        (free_invoker-IsValid q v node i found)
        (λ x h.
          Returns-mono (free_invoker q node) _ _
            (λ q' e.
              subst (λ l. occurrences x q' + count x l ≡ occurrences x q)
                (sym (busy_at-index_of node q.invokers i slot found at)) e)
            (occurrences-free_invoker x h q v.unique node i slot found at))
        (λ id.
          Returns-mono (free_invoker q node) _ _ (λ q' e. omega arith)
            (connected-free_invoker id q v.unique node i found))

  ended-Handled :
      (node : String) (i : ℕ)
      → index_of node q.invokers ≡ some i
      → Returns (connect_handler q (serving node) ended) (Handled q (serving node) ended)
  unfolding connect_handler
  ended-Handled node i found =
      let (slot, at, _) = get_elem?-index_of node q.invokers i found in
      Returns-facts (disconnect_invoker q node) (closed finished_ok) q (serving node) ended
        (disconnect_invoker-IsValid q v node i found)
        (λ x h.
          Returns-mono (disconnect_invoker q node) _ _ (λ q' e. omega arith)
            (occurrences-disconnect_invoker x h q v.unique node i slot found at))
        (λ id.
          Returns-mono (disconnect_invoker q node) _ _ (λ q' e. omega arith)
            (connected-disconnect_invoker id q v.unique node i found))

  -- The id of a serving session is that of an invoker.
  abbrev IsKnown : Session → Type 0
  IsKnown (serving node) = (i : ℕ) × (index_of node q.invokers ≡ some i)
  IsKnown _ = Unit

  connect_handler-Handled :
      (session : Session) (message : Read)
      → IsKnown session
      → Announces q session message
      → Returns (connect_handler q session message) (Handled q session message)
  unfolding connect_handler
  connect_handler-Handled opening (handshake node) k a = handshake-Handled node a
  connect_handler-Handled opening test_submission_response k a =
      unchanged-Handled q _ _ _ v refl (λ _. refl)
  connect_handler-Handled opening other_message k a = unchanged-Handled q _ _ _ v refl (λ _. refl)
  connect_handler-Handled opening ended k a = unchanged-Handled q _ _ _ v refl (λ _. refl)
  connect_handler-Handled (serving node) ended k a = ended-Handled node k.0 k.1
  connect_handler-Handled (serving node) test_submission_response k a =
      response-Handled node k.0 k.1
  connect_handler-Handled (serving node) other_message k a =
      unchanged-Handled q _ _ _ v refl (λ _. refl)
  connect_handler-Handled (serving node) (handshake _) k a =
      unchanged-Handled q _ _ _ v refl (λ _. refl)
  connect_handler-Handled (closed status) message k a = unchanged-Handled q _ _ _ v refl (λ _. refl)

IsKnown-IsSound :
    (sys : System) (w : IsSound sys) (k : ℕ) (session : Session)
    → get_elem? sys.sessions k ≡ some session
    → IsKnown sys.queue w.valid session
IsKnown-IsSound sys w k opening e = tt
IsKnown-IsSound sys w k (closed status) e = tt
IsKnown-IsSound sys w k (serving node) e = index_of-connected node sys.queue.invokers (
    ground (arith, serves-le node sys.sessions k (serving node) e, w.linked node, eq_iff node node))

submitted-IsSound :
    (m : Outcome TestingQueue) (sys : System) (s : String)
    → IsSound sys
    → Returns m IsValid
    → ((x : String)
        → x ≢ ""
        → Returns m (λ q. occurrences x q ≡ occurrences x sys.queue + count x (s ∷ [])))
    → ((id : String) → Returns m (λ q. connected id q.invokers ≡ connected id sys.queue.invokers))
    → Returns (m >>= λ q. ok (record sys { queue = q; submitted = s ∷ sys.submitted })) IsSound
submitted-IsSound (thrown e) sys s w v b l = absurd v
submitted-IsSound (ok q) sys s w v b l = record {
  valid = v;
  balance = λ x real. omega (arith, w.balance x real, b x real);
  linked = λ id. omega (arith, w.linked id, l id);
}

submit-IsSound : (sys : System) (s : String) → IsSound sys → Returns (step sys (submit s)) IsSound
unfolding step
submit-IsSound sys s w =
    submitted-IsSound (push_submission sys.queue s) sys s w
      (push_submission-IsValid sys.queue w.valid s)
      (λ x real. occurrences-push_submission x real sys.queue w.valid.unique s)
      (λ id. connected-push_submission id sys.queue w.valid.unique s)

-- Every legal event is handled without an exception, and the books stay balanced.
step-IsSound :
    (sys : System) (e : Event) → IsLegal sys e → IsSound sys → Returns (step sys e) IsSound
unfolding step
step-IsSound sys (submit s) l w = submit-IsSound sys s w
step-IsSound sys opened l w = record {
  valid = w.valid;
  balance = w.balance;
  linked = λ id. omega (arith, serving_count-append id sys.sessions, w.linked id);
}
step-IsSound sys (incoming k message) (session, at, a) w = rw at (
    Returns-bind (connect_handler sys.queue session message) _ IsSound (
      Returns-mono (connect_handler sys.queue session message) _ _
        (λ r h. record {
          valid = h.valid;
          balance = λ x real. omega (
            arith,
            w.balance x real,
            h.kept x real,
            count-append x (finished_by sys.queue session message) sys.finished,
          );
          linked = λ id.
              omega (
                arith,
                w.linked id,
                h.ids id,
                serving_count-modify id sys.sessions k session r.1 at,
              );
        })
        (connect_handler-Handled sys.queue w.valid session message
          (IsKnown-IsSound sys w k session at) a)))

continue-IsSound :
    (sys : System) (m : Outcome System) (es : List Event)
    → ((next : System) → IsLegalRun next es → IsSound next → Returns (run next es) IsSound)
    → IsLegalRun (after sys m) es
    → Returns m IsSound
    → Returns (m >>= λ next. run next es) IsSound
continue-IsSound sys (ok next) es rest l w = rest next l w
continue-IsSound sys (thrown e) es rest l w = absurd w

-- From a sound system every run of legal events returns and ends in a sound system: each
-- submission with a name is waiting, under test or finished, in all as often as it was submitted,
-- the queue is valid, and as many sessions serve an id as invokers carry it.
pub run-IsSound :
    (sys : System) (es : List Event)
    → IsLegalRun sys es
    → IsSound sys
    → Returns (run sys es) IsSound
unfolding run
run-IsSound sys [] l w = w
run-IsSound sys (e ∷ es) l w =
    continue-IsSound sys (step sys e) es (λ next r w'. run-IsSound next es r w') l.1
      (step-IsSound sys e l.0 w)

pub empty_system-IsSound : IsSound empty_system
empty_system-IsSound = record {
  valid = record { unique = tt; assigned = tt };
  balance = λ x real. refl;
  linked = λ id. refl;
}
