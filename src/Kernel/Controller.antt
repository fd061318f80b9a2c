-- ===== src/Kernel/Controller.antt =====
-- `RunController` of kernel/core.py, over the protocol `RunStateStore` of data_plane/base.py.
pub mod Refresh
pub mod Finalize
use portable_batch_execution.Base.{
  String, not, ◌||◌, List, to_set, if◌then◌else◌, Outcome, ok, raise, value_error,
}
use portable_batch_execution.Base.Int.{ℤ, eq_ℤ, succ_ℤ}
use portable_batch_execution.Contracts.Artifact.{ArtifactRef}
use portable_batch_execution.Contracts.Attempt.{ShardAttemptRecord}
use portable_batch_execution.Contracts.Manifest.{
  RunManifest, RunStatus, not_started, ready, finalized, attempt_shards, is_ready,
}
use portable_batch_execution.Contracts.Shard.{ShardSpec}
use portable_batch_execution.Kernel.Completeness.{Completeness, completeness, is_complete}

-- The part of the protocol that the controller calls, over the store's state `S`.
pub record RunStateStore (S : Type 0) : Type 0 where
  pub read_attempts : S → String → Outcome (List ShardAttemptRecord)
  pub write_next_manifest : S → RunManifest → ℤ → Outcome RunManifest × S

-- `manifest.model_copy(update={...})` of `refresh`
abbrev pub refreshed : RunManifest → ℤ → List ShardAttemptRecord → Completeness → RunManifest
refreshed m expected_revision attempts c = record m {
  revision = succ_ℤ expected_revision;
  discovered_attempts = attempts;
  canonical_attempts = c.canonical;
  completed_shard_ids = attempt_shards c.canonical;
  missing_shard_ids = c.missing;
  duplicate_shard_ids = c.duplicate;
  finalization_status = if is_complete c then ready else not_started;
}

-- `manifest.model_copy(update={...})` of `finalize`
abbrev pub finalized_manifest : RunManifest → ℤ → List ArtifactRef → RunManifest
finalized_manifest m expected_revision output_refs = record m {
  revision = succ_ℤ expected_revision;
  status = RunStatus.succeeded;
  finalization_status = finalized;
  final_output_refs = output_refs;
}

module _ {S : Type 0} (store : RunStateStore S) where
  -- What `refresh` writes, before it writes it.
  pub next_manifest : S → RunManifest → ℤ → List ShardSpec → Outcome RunManifest
  unfolding completeness
  next_manifest s m expected_revision planned = elim (store.read_attempts s m.logical_run_id) [
    | raise e ↦ raise e
    | ok attempts ↦ elim (completeness (to_set m.expected_shard_ids) attempts planned) [
      | raise e ↦ raise e
      | ok c ↦ ok (refreshed m expected_revision attempts c)
    ]
  ]

  unfoldable pub refresh : S → RunManifest → ℤ → List ShardSpec → Outcome RunManifest × S
  unfolding next_manifest
  refresh s m expected_revision planned = elim (next_manifest s m expected_revision planned) [
    | raise e ↦ (raise e, s)
    | ok next ↦ store.write_next_manifest s next expected_revision
  ]

  unfoldable pub finalize : S → RunManifest → ℤ → List ArtifactRef → Outcome RunManifest × S
  finalize s m expected_revision output_refs =
      if not (eq_ℤ m.revision expected_revision) || not (is_ready m.finalization_status)
      then (raise (value_error "manifest is not ready for finalization"), s)
      else store.write_next_manifest s (finalized_manifest m expected_revision output_refs)
          expected_revision
