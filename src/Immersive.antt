-- ===== src/Immersive.antt =====
-- The immersive mode of the web client: jumps in a list and the buttons it reserves in a game.
pub mod ListJump
pub mod Neighbours
pub mod Buttons
pub mod Chord
pub mod History
pub mod Memory
pub mod DoubleChord
pub mod Presses
pub mod Neutral
mod Tests
