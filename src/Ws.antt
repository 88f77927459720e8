-- ===== src/Ws.antt =====
-- The WebSocket layer of crates/pahoa-net/src/ws.
pub mod Bytes
pub mod Mask
pub mod Frame
pub mod Build
pub mod Utf8
pub mod Close
pub mod Session
mod Tests
