-- ===== src/FieldCrypto.antt =====
-- internal/infrastructure/fieldcrypto: the encryption of single values of a JSON body.
pub mod Errors
pub mod Envelope
pub mod Service
pub mod Digests
pub mod Stateless
pub mod Store
pub mod Policy
pub mod Gate
pub mod Kek
pub mod Tenants
