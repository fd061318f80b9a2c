-- ===== src/Contracts.antt =====
-- src/portable_batch_execution/contracts/models.py: the frozen contracts that the parts exchange.
-- A contract is a record; its pydantic validators are a function into `Outcome`, run wherever the
-- source constructs the model.
pub mod Datetime
pub mod Range
pub mod Artifact
pub mod Shard
pub mod Attempt
pub mod Manifest
pub mod Job
pub mod Json
