-- ===== src/Disposal.antt =====
-- web/features/player/runtime/dispose-runtime.ts and wait-native-save.ts: the end of a runtime.
pub mod Waiting
pub mod Exiting
mod Tests
