-- ===== src/DataPlane.antt =====
-- src/portable_batch_execution/data_plane/local.py: artifacts, attempts and manifest revisions on
-- the local file system.
pub mod Host
pub mod Artifacts
pub mod Attempts
pub mod Manifests
pub mod Store
