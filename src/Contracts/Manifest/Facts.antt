-- ===== src/Contracts/Manifest/Facts.antt =====
-- The tests of `manifest_invariants`, apart: what a valid manifest has, and what makes one valid.
use portable_batch_execution.Base.{
  Bool, true, false, not, ◌&&◌, ◌||◌, ◌≡◌, ◌++◌, any, distinct, subset, contains, arith, ok,
}
use portable_batch_execution.Base.Order.{text_le}
use portable_batch_execution.Base.Sorting.{sorted}
use portable_batch_execution.Contracts.Attempt.{ShardAttemptRecord, is_succeeded, is_empty}
use portable_batch_execution.Contracts.Datetime.{datetime_lt}
use portable_batch_execution.Contracts.Manifest.{
  RunManifest, attempt_shards, same_texts, has_succeeded, is_ready, is_finalized,
  manifest_invariants,
}

-- Neither an unsuccessful attempt nor one of an unknown shard.
abbrev pub is_foreign : RunManifest → ShardAttemptRecord → Bool
is_foreign m a = not (is_succeeded a) || not (contains m.expected_shard_ids a.shard_id)

pub record IsConsistent (m : RunManifest) : Type 0 where
  pub in_order : datetime_lt m.updated_at m.created_at ≡ ok false
  pub expected_once : distinct m.expected_shard_ids ≡ true
  pub known :
      subset
        (m.completed_shard_ids ++ (m.missing_shard_ids ++ m.duplicate_shard_ids))
        m.expected_shard_ids
      ≡ true
  pub canonical_once : distinct (attempt_shards m.canonical_attempts) ≡ true
  pub canonical_good : any (is_foreign m) m.canonical_attempts ≡ false
  pub completed :
      same_texts
        (sorted text_le (attempt_shards m.canonical_attempts))
        (sorted text_le m.completed_shard_ids)
      ≡ true
  pub published :
      (is_finalized m.finalization_status
        && (not (has_succeeded m) || is_empty m.final_output_refs))
      ≡ false
  pub unblocked :
      ((is_ready m.finalization_status || is_finalized m.finalization_status)
        && (not (is_empty m.missing_shard_ids) || not (is_empty m.duplicate_shard_ids)))
      ≡ false

pub manifest_invariants_pass : (m : RunManifest) → IsConsistent m → manifest_invariants m ≡ ok tt
unfolding manifest_invariants
manifest_invariants_pass m h = rw (
  h.in_order, h.expected_once, h.known, h.canonical_once, h.canonical_good, h.completed,
  h.published, h.unblocked,
)

pub manifest_invariants_sound : (m : RunManifest) → manifest_invariants m ≡ ok tt → IsConsistent m
unfolding manifest_invariants
manifest_invariants_sound m h = ground arith
