-- ===== src/Execution.antt =====
-- packages/integrations/src/revenueguard_integrations/execution: what the service makes of the answers
-- of providers, of lookups, and of signed events.
pub mod World
pub mod Attempted
pub mod Lost
pub mod Lookup
pub mod Signed
pub mod Waiting
pub mod Moved
pub mod Backoff
pub mod Observed
pub mod Credit
pub mod Verified
pub mod Doubted
pub mod Resolved
pub mod Proved
pub mod Ended
pub mod Closed
pub mod Settled
mod Examples
