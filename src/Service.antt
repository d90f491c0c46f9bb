-- ===== src/Service.antt =====
-- What is done with a device around a write: crates/controller-core/src/service.
pub mod Device
pub mod Outcome
pub mod Readback
pub mod Rollback
