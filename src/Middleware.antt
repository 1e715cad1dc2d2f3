-- ===== src/Middleware.antt =====
-- internal/interface/api/middleware: what stands in front of the handlers.
pub mod RateLimit
pub mod Clients
