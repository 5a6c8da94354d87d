-- ===== src/Machine.antt =====
-- internal/statemachine/statemachine.go, for one issue.
pub mod Config
pub mod Sets
pub mod Groups
pub mod Cycles
pub mod Transitions
pub mod Dispatch
pub mod Watch
pub mod Events
pub mod Completions
pub mod Handle
pub mod Claiming
