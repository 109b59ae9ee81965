-- ===== src/Policy.antt =====
-- packages/domain/src/revenueguard_domain/policy.py: merchant policy, and its deterministic
-- evaluation of ranked candidate actions.
pub mod Vocabulary
pub mod Candidate
pub mod Snapshot
pub mod Evaluate
pub mod Decide
pub mod Authorized
pub mod Selection
pub mod Outcome
pub mod QuietHours
mod Examples
