-- ===== src/Service.antt =====
-- sidecar/internal/server.go and the *_methods.go beside it: the methods of the sidecar, which put the
-- components together.
pub mod Reply
pub mod Methods
pub mod Logs
pub mod Logged
pub mod Approvals
pub mod Answered
pub mod Browser
pub mod Latest
pub mod Imports
pub mod Reviews
pub mod Sessions
mod Tests
