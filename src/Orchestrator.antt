-- ===== src/Orchestrator.antt =====
-- The orchestrator package (packages/orchestrator-go): routing, the task states, the file locks, the
-- dependency graph of a plan and the runner of its tasks, the protocol, and the handling of a task.
pub mod Types
pub mod Status
pub mod Routing
pub mod Context
pub mod Protocol
pub mod Improve
pub mod Tasks
pub mod Skills
pub mod Locks
pub mod Graph
pub mod Ready
pub mod Validation
pub mod Sorting
pub mod Runner
mod Examples
