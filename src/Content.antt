-- ===== src/Content.antt =====
-- modules/content_service: manifests of a content directory, and how a client and the server bring
-- their directories together.
pub mod Manifest
pub mod Scanner
pub mod Storage
pub mod Server
pub mod Transfer
mod Tests
mod TransferTests
