-- ===== src/Notifications.antt =====
-- The notifications: the stream, the cache, the use case and the contract of the answers.
pub mod Stream
pub mod Cache
pub mod Usecase
pub mod Contract
pub mod Cursor
pub mod Handlers
