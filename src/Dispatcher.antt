-- ===== src/Dispatcher.antt =====
-- modules/dispatcher: the queue of submissions and the test nodes that serve it.
pub mod Queue
pub mod Session
pub mod Service
mod Tests
