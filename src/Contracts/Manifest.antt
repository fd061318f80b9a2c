-- ===== src/Contracts/Manifest.antt =====
-- `RunManifest` of contracts/models.py.
pub mod Facts
pub mod Checks
use portable_batch_execution.Base.{
  String, Bool, true, false, not, ◌&&◌, ◌||◌, List, [], ◌∷◌, ◌++◌, map, any, distinct, subset,
  contains, ◌==◌, Outcome, ok, value_error, raise_if, traverse, ◌>>=◌, ◌>>◌,
}
use portable_batch_execution.Base.Int.{ℤ, pos, ltb_ℤ}
use portable_batch_execution.Base.Order.{text_le}
use portable_batch_execution.Base.Sorting.{sorted}
use portable_batch_execution.Contracts.Artifact.{ArtifactRef, Provenance, validate_artifact}
use portable_batch_execution.Contracts.Attempt.{
  ShardAttemptRecord, is_succeeded, is_empty, validate_attempt,
}
use portable_batch_execution.Contracts.Datetime.{Datetime, datetime_lt}
use portable_batch_execution.Contracts.Shard.{WaveSpec, validate_wave}

pub data RunStatus : Type 0 where
  planned running finalizing succeeded failed cancelled : RunStatus

pub data FinalizationStatus : Type 0 where
  not_started ready finalized failed : FinalizationStatus

-- `revision` may be negative until it is validated, since `model_copy` does not validate.
-- `backend_executions` is a tuple of JSON objects that nothing here looks into: their texts.
pub record RunManifest : Type 0 where
  pub logical_run_id : String
  pub revision : ℤ
  pub job_spec_digest : String
  pub status : RunStatus
  pub expected_shard_ids : List String
  pub created_at : Datetime
  pub updated_at : Datetime
  pub provenance : Provenance
  pub waves : List WaveSpec
  pub discovered_attempts : List ShardAttemptRecord
  pub canonical_attempts : List ShardAttemptRecord
  pub completed_shard_ids : List String
  pub missing_shard_ids : List String
  pub duplicate_shard_ids : List String
  pub finalization_status : FinalizationStatus
  pub final_output_refs : List ArtifactRef
  pub backend_executions : List String

abbrev pub attempt_shards : List ShardAttemptRecord → List String
attempt_shards = map (λ a. a.shard_id)

-- `tuple(xs) == tuple(ys)`
abbrev pub same_texts : List String → List String → Bool
same_texts [] [] = true
same_texts [] (y ∷ ys) = false
same_texts (x ∷ xs) [] = false
same_texts (x ∷ xs) (y ∷ ys) = (x == y) && same_texts xs ys

abbrev pub has_succeeded : RunManifest → Bool
has_succeeded m = elim m.status [ RunStatus.succeeded ↦ true | _ ↦ false ]

abbrev pub is_ready : FinalizationStatus → Bool
is_ready s = elim s [ ready ↦ true | _ ↦ false ]

abbrev pub is_finalized : FinalizationStatus → Bool
is_finalized s = elim s [ finalized ↦ true | _ ↦ false ]

-- `manifest_invariants`
unfoldable pub manifest_invariants : RunManifest → Outcome (Unit {0})
unfolding datetime_lt
manifest_invariants m = do
  early ← datetime_lt m.updated_at m.created_at
  raise_if (not (distinct m.expected_shard_ids) || early) (value_error "manifest invariant")
  raise_if
      (not (
        subset (m.completed_shard_ids ++ (m.missing_shard_ids ++ m.duplicate_shard_ids))
          m.expected_shard_ids))
      (value_error "unknown shard")
  raise_if (not (distinct (attempt_shards m.canonical_attempts)))
      (value_error "canonical attempts must be unique")
  raise_if
      (any (λ a. not (is_succeeded a) || not (contains m.expected_shard_ids a.shard_id))
        m.canonical_attempts)
      (value_error "canonical attempts must be successful expected shards")
  raise_if
      (not (
        same_texts (sorted text_le (attempt_shards m.canonical_attempts))
          (sorted text_le m.completed_shard_ids)))
      (value_error "completed shards must match canonical attempts")
  raise_if
      (is_finalized m.finalization_status
        && (not (has_succeeded m) || is_empty m.final_output_refs))
      (value_error "finalized manifest requires succeeded status and outputs")
  raise_if
      ((is_ready m.finalization_status || is_finalized m.finalization_status)
        && (not (is_empty m.missing_shard_ids) || not (is_empty m.duplicate_shard_ids)))
      (value_error "finalization is blocked by incomplete shards")

-- The nested contracts, and then the manifest's own validator
pub manifest_checks : RunManifest → Outcome (Unit {0})
unfolding manifest_invariants validate_wave validate_attempt validate_artifact
manifest_checks m = do
  raise_if (ltb_ℤ m.revision (pos 0)) (value_error "revision must not be negative")
  _ ← traverse validate_wave m.waves
  _ ← traverse validate_attempt m.discovered_attempts
  _ ← traverse validate_attempt m.canonical_attempts
  _ ← traverse validate_artifact m.final_output_refs
  manifest_invariants m

-- `RunManifest.model_validate(...)`
unfoldable pub validate_manifest : RunManifest → Outcome RunManifest
unfolding manifest_checks
validate_manifest m = do manifest_checks m; ok m
