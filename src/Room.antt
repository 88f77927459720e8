-- ===== src/Room.antt =====
-- The room of crates/pahoa-room/src: the state of one multiworld and what clients do to it.
pub mod Hints
pub mod Filter
pub mod Effects
pub mod Client
pub mod Tags
pub mod Options
pub mod State
pub mod Queues
pub mod Messages
pub mod Checks
pub mod Sweeps
pub mod Announce
pub mod Requests
pub mod Secret
pub mod Connect
pub mod Lifecycle
mod Tests
mod StateTests
mod ChooseTests
mod FilterTests
mod LifecycleTests
mod ConnectTests
