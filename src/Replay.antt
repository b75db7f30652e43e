-- ===== src/Replay.antt =====
-- sidecar/internal/replay: a session at a time, from its events.
pub mod Snapshot
pub mod Window
pub mod Timeline
pub mod Buckets
pub mod Moments
pub mod Density
pub mod Tests
