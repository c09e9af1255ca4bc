-- ===== src/TestNode.antt =====
-- modules/test_node: verdicts, the tests of a problem, and how a submission is tested.
pub mod Double
pub mod Verdict
pub mod Test
pub mod Testset
pub mod Meta
pub mod Single
pub mod SyncResult
mod Tests
mod JudgeTests
