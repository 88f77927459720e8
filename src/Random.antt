-- ===== src/Random.antt =====
-- crates/pahoa-pyrandom: CPython's random numbers.
pub mod Twister
pub mod Draws
mod Tests
