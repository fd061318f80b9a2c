-- ===== src/DataPlane/Store.antt =====
-- `LocalFilesystemDataPlane` as the store that the run controller works on.
pub mod Publish
use portable_batch_execution.DataPlane.Attempts.{Plane, read_attempts}
use portable_batch_execution.DataPlane.Host.{Host}
use portable_batch_execution.DataPlane.Manifests.{write_next_manifest}
use portable_batch_execution.Kernel.Controller.{RunStateStore}

abbrev pub local_store : Host → RunStateStore Plane
local_store host = record {
  read_attempts = read_attempts;
  write_next_manifest = write_next_manifest host;
}
