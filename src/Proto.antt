-- ===== src/Proto.antt =====
-- crates/pahoa-proto: the wire protocol.
pub mod Depth
pub mod Packets
mod Tests
