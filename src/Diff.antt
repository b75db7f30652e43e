-- ===== src/Diff.antt =====
-- Diff review (sidecar/internal/diffreview): the line diff of hunk.go and the review store of
-- pending.go.
pub mod Lines
pub mod Lcs
pub mod Hunks
pub mod Resolve
pub mod Review
pub mod Optimal
pub mod Patch
pub mod Store
pub mod Bulk
pub mod Decisions
pub mod Guards
pub mod Tests
