-- ===== src/DevCore.antt =====
-- The utilities of src/devcore that the other parts rest on.
pub mod Hex
pub mod Nibbles
pub mod Base64
pub mod StateCache
mod Tests
