-- ===== src/Drift.antt =====
-- The live host against the plan: what `rodeo plan` shows and `--reconcile` resets.
pub mod Plan
pub mod Report
pub mod Reported
pub mod Affected
