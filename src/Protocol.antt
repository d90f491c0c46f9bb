-- ===== src/Protocol.antt =====
-- crates/controller-core/src/protocol: the bytes of the config protocol.
pub mod Bytes
pub mod Crc16
pub mod Framing
pub mod Text
pub mod Layout
pub mod WireWrite
pub mod Wire
mod Tests
