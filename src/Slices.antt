-- ===== src/Slices.antt =====
-- The Redux slices: frontend/src/slices.
pub mod App
pub mod User
pub mod Ws
mod Tests
