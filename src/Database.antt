-- ===== src/Database.antt =====
-- modules/database: the connections to PostgreSQL and what is prepared on them.
pub mod Statements
pub mod Connection
pub mod Pool
pub mod ExecutionQueue
pub mod Queries
pub mod Connecting
pub mod Submissions
mod Tests
mod QueryTests
mod ConnectTests
mod QueueTests
mod SubmissionTests
