-- ===== src/Task.antt =====
-- src/modules/task: tasks, their subtasks and their dependencies.
pub mod Row
pub mod Repository
pub mod Assignees
pub mod Subtasks
pub mod Dependency
pub mod Service
pub mod Invariant
pub mod Update
pub mod Workflow
pub mod Bulk
pub mod Recurring
pub mod Requests
pub mod Orphans
pub mod Spawned
