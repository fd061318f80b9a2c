-- ===== src/Tests/Kernel.antt =====
-- The theorems on the kernel at the sample run.
use portable_batch_execution.Base.{◌≡◌, refl, [], ◌∷◌, ◌++◌, all, eqb, ok}
use portable_batch_execution.Base.Int.{pos}
use portable_batch_execution.Base.Sorting.{sorted}
use portable_batch_execution.Contracts.Manifest.{RunManifest, manifest_invariants, is_ready}
use portable_batch_execution.Kernel.Completeness.{Completeness, completeness}
use portable_batch_execution.Kernel.Completeness.Partition.{count_of}
use portable_batch_execution.Kernel.Completeness.Verdict.{IsVerdict, completeness-IsVerdict}
use portable_batch_execution.Kernel.Controller.{RunStateStore, next_manifest}
use portable_batch_execution.Kernel.Controller.Refresh.{next_manifest-valid}
use portable_batch_execution.Kernel.Retry.{retryable_shards, exhausted_shards}
use portable_batch_execution.Kernel.Retry.Budget.{succeeded_shards, retry_partition}
use portable_batch_execution.Tests.{shards, attempts, three_tries, manifest}
use mathlib.Core.List.{Perm}

completeness-IsVerdict_example :
    (c : Completeness) × (completeness ("a" ∷ "b" ∷ "c" ∷ []) attempts shards ≡ ok c)
    × IsVerdict ("a" ∷ "b" ∷ "c" ∷ []) attempts shards c
completeness-IsVerdict_example = completeness-IsVerdict ("a" ∷ "b" ∷ "c" ∷ []) attempts shards refl

-- A store that always returns the sample attempts.
abbrev sample_store : RunStateStore (Unit {0})
sample_store = record {
  read_attempts = λ s run_id. ok attempts;
  write_next_manifest = λ s m r. (ok m, s);
}

next_manifest-valid_example :
    (next : RunManifest) × (next_manifest sample_store tt manifest (pos 0) shards ≡ ok next)
    × (manifest_invariants next ≡ ok tt)
    × (is_ready next.finalization_status
        ≡ all (λ i. eqb (count_of shards attempts i) 1) manifest.expected_shard_ids)
unfolding manifest_invariants sorted
next_manifest-valid_example =
    next_manifest-valid sample_store tt manifest (pos 0) shards attempts refl refl refl

retry_partition_example :
    Perm
      (retryable_shards shards attempts three_tries
        ++ (exhausted_shards shards attempts three_tries ++ succeeded_shards shards attempts))
      shards
retry_partition_example = retry_partition shards attempts three_tries refl
