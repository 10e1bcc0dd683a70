-- ===== src/Executor.antt =====
-- The executor (kernel/internal/executor): where envelopes travel, and what bounds and permits them.
pub mod Types
pub mod Causal
pub mod Speculation
pub mod Budget
pub mod Policy
pub mod Session
pub mod Graph
mod Tests
