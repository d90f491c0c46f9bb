-- ===== src/Devices.antt =====
-- crates/controller-core/src/devices: the controller models' codecs.
pub mod Pro3
