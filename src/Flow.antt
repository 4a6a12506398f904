-- ===== src/Flow.antt =====
-- flow.c: the flow table.
pub mod Types
pub mod Table
pub mod Clusters
pub mod Invariant
pub mod Alloc
pub mod Target
pub mod Lifecycle
pub mod Retarget
pub mod Targeting
pub mod Sweep
pub mod Reach
pub mod Hash
mod Tests
