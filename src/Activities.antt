-- ===== src/Activities.antt =====
-- The activity endpoints: internal/interface/api/handler/activities.go and activity_batch.go.
pub mod Page
pub mod Batch
pub mod Cache
pub mod Usecase
