-- ===== src/ChangeOnly.antt =====
-- ops/worker/change-only-resource-plan-v1.py: which workspaces of a retired change may be archived.
pub mod Plan
pub mod Review
pub mod Clearance
mod Tests
