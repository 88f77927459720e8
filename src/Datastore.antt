-- ===== src/Datastore.antt =====
-- The data storage of crates/pahoa-datastore: Python's values over JSON, and its operations.
pub mod Numbers
pub mod Values
pub mod Arith
pub mod Containers
pub mod Ops
pub mod Width
pub mod Sequence
pub mod Update
pub mod FloorMod
pub mod Shortcut
mod Tests
