-- ===== src/Kernel.antt =====
-- src/portable_batch_execution/kernel/core.py: planning of shards and waves, completeness of a run,
-- retries, and the controller that alone writes run manifests.
pub mod Ranges
pub mod Waves
pub mod Shards
pub mod Completeness
pub mod Retry
pub mod Controller
pub mod Pipeline
