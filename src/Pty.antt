-- ===== src/Pty.antt =====
-- sidecar/internal/pty: the sessions and their environments.
pub mod Env
pub mod Manager
pub mod Sessions
pub mod Live
pub mod Signals
pub mod Reader
pub mod Tests
