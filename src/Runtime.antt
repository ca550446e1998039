-- ===== src/Runtime.antt =====
-- The runtime of the agents (src/legion_runtime).
pub mod Queries
pub mod Owners
pub mod Checks
pub mod Agent
pub mod AgentChecks
pub mod Work
pub mod WorkChecks
pub mod Store
pub mod Repository
pub mod Service
pub mod Stable
pub mod Run
pub mod Numbering
pub mod Growth
pub mod Ends
pub mod Actors
pub mod Granting
pub mod Fencing
pub mod Ordering
pub mod Attempts
pub mod Rollback
pub mod Staging
pub mod Remembering
mod Samples
mod Tests
mod RollbackTests
