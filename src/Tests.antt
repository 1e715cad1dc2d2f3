-- ===== src/Tests.antt =====
-- The theorems at concrete inputs.
mod Activities
mod Usecase
mod Errors
mod Escalations
mod Limits
mod FieldCrypto
mod CryptoSessions
mod Notifications
mod Auth
mod Cursors
mod Requests
mod Gate
mod Login
mod Configs
mod Keys
