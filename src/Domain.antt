-- ===== src/Domain.antt =====
-- internal/domain: error codes, business errors and the masking helpers.
pub mod Errors
