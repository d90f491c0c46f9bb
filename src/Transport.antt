-- ===== src/Transport.antt =====
-- The hidraw transport: crates/controller-core/src/transport.
pub mod WriteInput
pub mod Session
pub mod Commands
pub mod HidrawWrite
pub mod HidrawRead
mod Tests
