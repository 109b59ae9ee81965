-- ===== src/Outbox.antt =====
-- packages/integrations/src/revenueguard_integrations/persistence/action_repositories.py: the durable
-- outbox of actions, with the attempts to execute them and their outcomes.
pub mod Tables
pub mod Enqueue
pub mod Claim
pub mod Attempt
pub mod Resolve
pub mod Outcomes
pub mod Keys
pub mod Sound
pub mod Numbering
pub mod Kept
pub mod Begun
pub mod Finished
pub mod Stored
pub mod Claimed
pub mod Credited
pub mod Steps
pub mod Held
pub mod Between
pub mod Standing
pub mod Exclusive
pub mod Totals
pub mod Samples
mod Examples
