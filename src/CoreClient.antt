-- ===== src/CoreClient.antt =====
-- internal/infrastructure/coreclient: the client of the core service.
pub mod Errors
pub mod Queries
pub mod Requests
