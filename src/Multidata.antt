-- ===== src/Multidata.antt =====
-- The multidata of crates/pahoa-multidata/src: what a seed says, as the room reads it.
pub mod Types
pub mod Locations
pub mod Statuses
mod Tests
