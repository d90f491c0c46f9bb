-- ===== src/Orchestrator.antt =====
-- The write jobs: crates/controller-core/src/orchestrator.
pub mod Write
mod Tests
