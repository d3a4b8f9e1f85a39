-- ===== src/Input.antt =====
-- web/features/immersive/input-model.ts: the actions of a gamepad, and which gamepad is taken.
pub mod Gamepad
pub mod Directions
pub mod Navigation
pub mod Claim
pub mod Arming
pub mod Repeats
mod Tests
