-- ===== src/Deployer.antt =====
-- internal/deployer: the plan of an apply, its execution, and the state that records what it owns.
pub mod Paths
pub mod Types
pub mod Planner
pub mod Executor
pub mod Order
pub mod Failures
pub mod Store
mod Samples
