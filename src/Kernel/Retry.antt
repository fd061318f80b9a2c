-- ===== src/Kernel/Retry.antt =====
-- `retryable_shards` and `exhausted_shards` of kernel/core.py.
pub mod Budget
use portable_batch_execution.Base.{Bool, not, ◌&&◌, ◌||◌, List, [], select, any, length, ltb, leb}
use portable_batch_execution.Base.Dict.{Dict, get_list, group_onto}
use portable_batch_execution.Base.Sorting.{sorted}
use portable_batch_execution.Contracts.Attempt.{ShardAttemptRecord, is_succeeded}
use portable_batch_execution.Contracts.Shard.{ShardSpec, ExecutionPolicy}
use portable_batch_execution.Kernel.Completeness.{is_current}
use portable_batch_execution.Kernel.Waves.{shard_le}

-- `for attempt in attempts: by_shard[attempt.shard_id].append(attempt)`
pub attempts_by_shard : List ShardAttemptRecord → Dict (List ShardAttemptRecord)
unfolding group_onto
attempts_by_shard = group_onto [] (λ a. a.shard_id)

-- The attempts on the shard's current inputs and code.
pub records_of : Dict (List ShardAttemptRecord) → ShardSpec → List ShardAttemptRecord
records_of d s = select (is_current s) (get_list d s.shard_id)

-- `success` tests the digests of the records once more, as the source does.
pub may_retry : Dict (List ShardAttemptRecord) → ExecutionPolicy → ShardSpec → Bool
unfolding records_of
may_retry d policy s =
    let records = records_of d s in
    let success = any (λ a. is_succeeded a && is_current s a) records in
    (not success || not policy.resume_enabled) && ltb (length records) policy.max_attempts_per_shard

pub retryable_shards : List ShardSpec → List ShardAttemptRecord → ExecutionPolicy → List ShardSpec
unfolding attempts_by_shard may_retry
retryable_shards shards attempts policy =
    select (may_retry (attempts_by_shard attempts) policy) (sorted shard_le shards)

pub is_exhausted : Dict (List ShardAttemptRecord) → ExecutionPolicy → ShardSpec → Bool
unfolding records_of
is_exhausted d policy s =
    let current = records_of d s in
    leb policy.max_attempts_per_shard (length current) && not (any is_succeeded current)

unfoldable pub exhausted_shards :
    List ShardSpec → List ShardAttemptRecord → ExecutionPolicy → List ShardSpec
unfolding attempts_by_shard is_exhausted
exhausted_shards shards attempts policy =
    select (is_exhausted (attempts_by_shard attempts) policy) (sorted shard_le shards)
