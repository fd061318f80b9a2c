-- ===== src/Lifecycle.antt =====
-- The lifecycle of artifact payloads: deliveries, holds, deletion, and garbage collection.
pub mod Records
pub mod Root
pub mod Index
pub mod References
pub mod Reachability
pub mod Sweep
pub mod Deletion
pub mod Plan
pub mod Apply
pub mod Collect
pub mod Holds
