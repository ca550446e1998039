-- ===== src/Kernel.antt =====
-- legion_kernel/kernel.py: the in-memory Mission kernel.
pub mod Leaves
pub mod Memory
pub mod Types
pub mod State
pub mod Rules
pub mod Lifecycle
pub mod Payload
pub mod Journal
pub mod Command
pub mod Approvals
pub mod Execution
pub mod Facts
pub mod Creation
pub mod Stable
pub mod Run
pub mod AuditLog
pub mod Results
pub mod AtMostOnce
pub mod Gate
pub mod Decisions
pub mod Outcomes
pub mod Keyed
pub mod Retry
mod Tests
pub mod Samples
