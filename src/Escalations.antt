-- ===== src/Escalations.antt =====
-- internal/application/usecases: escalations.go, escalation_payload.go, escalation_gestion.go.
pub mod Payload
pub mod Management
