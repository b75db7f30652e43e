-- ===== src/Workspace.antt =====
-- sidecar/internal/workspace: the open workspaces and their git state.
pub mod Git
pub mod Header
pub mod Porcelain
pub mod Meta
pub mod Registry
pub mod Inverse
pub mod Steps
pub mod Runs
pub mod Restart
pub mod Reload
mod Tests
