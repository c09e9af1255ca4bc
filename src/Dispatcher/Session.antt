-- ===== src/Dispatcher/Session.antt =====
-- modules/dispatcher/src/queue_manager_service.cpp: one connection of a test node, as the messages
-- that it sends arrive. The write loop only forwards the channel to the stream.
pub mod History
pub mod Links
pub mod Soundness
use oink_judge.Prelude.{String, List, [], ◌∷◌, Outcome, ok, ◌>>=◌}
use oink_judge.Dispatcher.Queue.{
  Invoker, TestingQueue, can_test_all, free_invoker, connect_invoker, disconnect_invoker,
}

-- What rpc.read delivers: a ClientMessage by its payload, or `ended`, when the read fails; the
-- handler leaves in the same way when the write loop returns first.
pub data Read : Type 0 where
  handshake : String → Read
  test_submission_response : Read
  other_message : Read
  ended : Read

pub data Status : Type 0 where
  invalid_argument finished_ok : Status

pub data Session : Type 0 where
  opening : Session
  serving : String → Session
  closed : Status → Session

-- Invoker(node_id, channel)
abbrev pub make_invoker : String → Invoker
make_invoker node_id = record { id = node_id; can_test = can_test_all; sent = [] }

-- connectHandler up to the loops: the first message must be a handshake.
unfoldable pub open_session : TestingQueue → Read → Outcome (TestingQueue × Session)
open_session q (handshake node_id) = do
  q' ← connect_invoker q (make_invoker node_id)
  ok (q', serving node_id)
open_session q test_submission_response = ok (q, closed invalid_argument)
open_session q other_message = ok (q, closed invalid_argument)
open_session q ended = ok (q, closed invalid_argument)

-- The end of connectHandler, after one of the loops has returned.
unfoldable pub close_session : TestingQueue → String → Outcome (TestingQueue × Session)
close_session q node_id = do q' ← disconnect_invoker q node_id; ok (q', closed finished_ok)

-- One turn of readLoop.
unfoldable pub read_loop : TestingQueue → String → Read → Outcome (TestingQueue × Session)
unfolding close_session
read_loop q node_id ended = close_session q node_id
read_loop q node_id test_submission_response = do
  q' ← free_invoker q node_id
  ok (q', serving node_id)
read_loop q node_id other_message = ok (q, serving node_id)
read_loop q node_id (handshake _) = ok (q, serving node_id)

-- connectHandler
unfoldable pub connect_handler : TestingQueue → Session → Read → Outcome (TestingQueue × Session)
unfolding open_session read_loop
connect_handler q opening message = open_session q message
connect_handler q (serving node_id) message = read_loop q node_id message
connect_handler q (closed status) message = ok (q, closed status)
