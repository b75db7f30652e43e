-- ===== src/Activity.antt =====
-- sidecar/internal/activity: the log of what the agents do.
pub mod Event
pub mod Log
pub mod Store
pub mod Persist
pub mod Ring
pub mod History
pub mod Recent
pub mod Full
pub mod Channels
pub mod Tests
