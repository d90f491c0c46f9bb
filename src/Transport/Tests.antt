-- ===== src/Transport/Tests.antt =====
-- The transport on a small pad and on a quiet node: crates/controller-core/src/transport.
mod Pads
mod Nodes
