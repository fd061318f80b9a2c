-- ===== src/DataPlane/Manifests.antt =====
-- The manifest revisions of `LocalFilesystemDataPlane`: compare and swap, with every revision kept.
pub mod Checks
pub mod Swap
pub mod Writers
pub mod Linear
pub mod Crash
use portable_batch_execution.Base.{
  String, Bool, true, false, not, Option, none, some, List, [], ◌∷◌, if◌then◌else◌, Outcome, ok,
  raise, value_error, revision_conflict, raise_if, ◌>>=◌, ◌>>◌,
}
use portable_batch_execution.Base.Int.{ℤ, negsuc, eq_ℤ, succ_ℤ}
use portable_batch_execution.Contracts.Manifest.{RunManifest, validate_manifest}
use portable_batch_execution.DataPlane.Artifacts.{validate_local_refs}
use portable_batch_execution.DataPlane.Attempts.{Plane, run_of, put_run}
use portable_batch_execution.DataPlane.Host.{Host}
use portable_batch_execution.Names.{safe_file_component}

-- The file of a revision.
unfoldable pub revision_file : List (ℤ × RunManifest) → ℤ → Option RunManifest
revision_file [] r = none
revision_file ((k, m) ∷ h) r = if eq_ℤ k r then some m else revision_file h r

-- `current.revision if current else -1`
abbrev pub current_revision : Option RunManifest → ℤ
current_revision none = negsuc 0
current_revision (some m) = m.revision

abbrev pub is_there : Option RunManifest → Bool
is_there none = false
is_there (some m) = true

unfoldable pub read_manifest : Plane → String → Outcome (Option RunManifest)
unfolding run_of safe_file_component
read_manifest s run_id = do _ ← safe_file_component run_id; ok (run_of s run_id).latest

-- `_write_next_manifest_unlocked` up to its first write: the manifest that it will write
unfoldable pub next_checks : Host → Plane → RunManifest → ℤ → Outcome RunManifest
unfolding validate_manifest safe_file_component run_of revision_file validate_local_refs
next_checks host s manifest expected_revision = do
  m ← validate_manifest manifest
  _ ← safe_file_component m.logical_run_id
  let r = run_of s m.logical_run_id
  raise_if (not (eq_ℤ (current_revision r.latest) expected_revision))
      (revision_conflict "expected revision, found another")
  raise_if (not (eq_ℤ m.revision (succ_ℤ expected_revision)))
      (value_error "next manifest revision must increment by one")
  validate_local_refs host s.artifacts m.final_output_refs
  raise_if (is_there (revision_file r.history m.revision))
      (revision_conflict "manifest revision already exists")
  ok m

-- `temporary.replace(revision_path)`
pub publish_revision : Plane → RunManifest → Plane
unfolding run_of put_run
publish_revision s m =
    let r = run_of s m.logical_run_id in
    put_run s m.logical_run_id (record r { history = (m.revision, m) ∷ r.history })

-- `latest_temp.replace(latest)`
pub publish_latest : Plane → RunManifest → Plane
unfolding run_of put_run
publish_latest s m =
    let r = run_of s m.logical_run_id in put_run s m.logical_run_id (record r { latest = some m })

unfoldable pub write_next_manifest : Host → Plane → RunManifest → ℤ → Outcome RunManifest × Plane
unfolding next_checks publish_revision publish_latest
write_next_manifest host s manifest expected_revision =
    elim (next_checks host s manifest expected_revision) [
      | raise e ↦ (raise e, s)
      | ok m ↦ (ok m, publish_latest (publish_revision s m) m)
    ]

-- The process stops between the two writes.
pub interrupted_write : Host → Plane → RunManifest → ℤ → Plane
unfolding next_checks publish_revision
interrupted_write host s manifest expected_revision =
    elim (next_checks host s manifest expected_revision) [
      | raise e ↦ s
      | ok m ↦ publish_revision s m
    ]
