-- ===== src/Auth.antt =====
-- Who calls: the tokens, the addresses behind them, and what a caller may do.
pub mod Jwks
pub mod Emails
pub mod Tokens
pub mod Access
pub mod Keycloak
pub mod Login
