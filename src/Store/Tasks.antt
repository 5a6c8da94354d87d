-- ===== src/Store/Tasks.antt =====
-- internal/store/store.go, the task_queue table: insertion, claims by workers, leases, completion.
-- Times are seconds of CURRENT_TIMESTAMP; a lease of 0 stands for the leases that are not positive.
pub mod Row
pub mod Queue
pub mod Queries
pub mod Steps
mod Ownership
mod Settled
mod Pick
mod Examples
