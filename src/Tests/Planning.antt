-- ===== src/Tests/Planning.antt =====
-- The theorems on the plans of shards and waves at small inputs.
use portable_batch_execution.Base.{
  false, ℕ, true, ◌≡◌, refl, List, [], none, some, distinct, ok, arith,
}
use portable_batch_execution.Base.Int.{pos}
use portable_batch_execution.Base.Sorting.{sorted}
use portable_batch_execution.Base.Steps.{Tiles}
use portable_batch_execution.Contracts.Datetime.{Datetime, datetime_lt}
use portable_batch_execution.Contracts.Shard.{ShardSpec, WaveSpec, extents}
use portable_batch_execution.Kernel.Ranges.{index_range, time_range}
use portable_batch_execution.Kernel.Shards.{ShardPlan, whole, timedelta_of, plan_shards}
use portable_batch_execution.Kernel.Shards.Index.{
  shards_for, IsIndexPlan, index_specs, plan_shards-index,
}
use portable_batch_execution.Kernel.Shards.Time.{aware, TimeTiles}
use portable_batch_execution.Kernel.Shards.TimePlan.{IsTimePlan, time_specs, plan_shards-time}
use portable_batch_execution.Kernel.Waves.{plan_waves, shard_ids, shard_le, limits}
use portable_batch_execution.Kernel.Waves.Cover.{
  IsAdmissible, planned_ids, AreWaves, plan_waves-cover,
}
use portable_batch_execution.Contracts.Job.{pack_ops, has_reserved, job_closed}
use portable_batch_execution.Contracts.Job.Closed.{
  returns, is_plain, values_within, job_closed-returns,
}
use portable_batch_execution.Kernel.Pipeline.{plan_waves-plan_shards}
use portable_batch_execution.Tests.{sort_job, shards, independent_shards}

abbrev plan : ShardPlan
plan = record {
  run_id = "run";
  correctness = independent_shards;
  input_refs = [];
  input_digest = "in";
  execution_fingerprint = "code";
  partition_key = none;
}

plan-IsIndexPlan : IsIndexPlan plan
unfolding extents
plan-IsIndexPlan = record { keyed = refl; record_extents = refl }

plan-IsTimePlan : IsTimePlan plan
unfolding extents
plan-IsTimePlan = record { keyed = refl; time_extents = refl }

plan_shards-index_example :
    (rs : List (ℕ × ℕ)) × Tiles 4 3 12 rs
    × (plan_shards plan (index_range 3 12) (whole (pos 4))
        ≡ ok (shards_for plan 0 (index_specs rs)))
    × (distinct (shard_ids (shards_for plan 0 (index_specs rs))) ≡ true)
plan_shards-index_example = plan_shards-index plan 3 12 3 plan-IsIndexPlan (omega arith)

plan_shards-time_example :
    (rs : List (Datetime × Datetime)) × TimeTiles 2000000
      (aware 5000000 (pos 0))
      (aware 10000000 (pos 1000000))
      rs
    × (plan_shards plan
          (time_range (aware 5000000 (pos 0)) (aware 10000000 (pos 1000000)))
          (timedelta_of (pos 2000000))
        ≡ ok (shards_for plan 0 (time_specs rs)))
    × (distinct (shard_ids (shards_for plan 0 (time_specs rs))) ≡ true)
unfolding datetime_lt
plan_shards-time_example =
    plan_shards-time plan 5000000 10000000 1999999 (pos 0) (pos 1000000) plan-IsTimePlan refl
      (omega arith)

shards-IsAdmissible : IsAdmissible "run" shards (pos 2) (limits (some (pos 2)) none)
unfolding limits
shards-IsAdmissible = record {
  parallel = refl;
  capped = refl;
  positive_caps = refl;
  unique = refl;
  of_run = refl;
}

plan_waves-cover_example :
    (waves : List WaveSpec) × (plan_waves "run" shards (pos 2) (some (pos 2)) none ≡ ok waves)
    × (planned_ids waves ≡ shard_ids (sorted shard_le shards))
    × AreWaves "run" (limits (some (pos 2)) none) 0 waves
plan_waves-cover_example =
    plan_waves-cover "run" shards (pos 2) (some (pos 2)) none shards-IsAdmissible

-- A reserved key two levels down.
job_closed-returns_example : returns (job_closed sort_job) ≡ false
unfolding pack_ops is_plain values_within has_reserved
job_closed-returns_example = job_closed-returns sort_job

plan_waves-plan_shards_example :
    (ss : List ShardSpec) × (plan_shards plan (index_range 3 12) (whole (pos 4)) ≡ ok ss)
    × (waves : List WaveSpec) × (plan_waves "run" ss (pos 2) (some (pos 2)) none ≡ ok waves)
    × (planned_ids waves ≡ shard_ids ss)
    × AreWaves "run" (limits (some (pos 2)) none) 0 waves
unfolding limits
plan_waves-plan_shards_example =
    plan_waves-plan_shards plan 3 12 3 (pos 2) (some (pos 2)) none plan-IsIndexPlan (omega arith)
      refl refl refl
