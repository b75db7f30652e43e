-- ===== src/Approval.antt =====
-- The approval gate (sidecar/internal/approval): the dangerous-command rules, the three modes of a
-- workspace, and the queue of actions that wait for a human decision.
pub mod Regex
pub mod Rules
pub mod Gate
pub mod Queue
pub mod Verdicts
pub mod Keys
pub mod Safety
pub mod Tests
