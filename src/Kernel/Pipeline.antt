-- ===== src/Kernel/Pipeline.antt =====
-- `plan_waves` after `plan_shards`, as a run is planned.
use portable_batch_execution.Base.{
  ℕ, suc, ◌≤◌, false, not, ◌==◌, eq_iff, ◌≡◌, refl, ◌∙◌, ap, Option, List, [], ◌∷◌, any, length,
  eqb, arith, ok,
}
use portable_batch_execution.Base.Int.{ℤ, pos}
use portable_batch_execution.Base.Sorting.{sorted, insert_sorted}
use portable_batch_execution.Contracts.Range.{RangeSpec}
use portable_batch_execution.Contracts.Shard.{ShardSpec, WaveSpec}
use portable_batch_execution.Kernel.Ranges.{index_range}
use portable_batch_execution.Kernel.Shards.{ShardPlan, whole, planned_shard, plan_shards}
use portable_batch_execution.Kernel.Shards.Index.{
  shards_for, IsIndexPlan, index_specs, plan_shards-index,
}
use portable_batch_execution.Kernel.Waves.{
  shard_le, shard_ids, not_positive, Capabilities, limits, plan_waves,
}
use portable_batch_execution.Kernel.Waves.Cover.{planned_ids, AreWaves, plan_waves-cover}

-- Planned shards are in planning order already.
sorted-shards_for :
    (p : ShardPlan) (k : ℕ) (rs : List RangeSpec)
    → sorted shard_le (shards_for p k rs) ≡ shards_for p k rs
unfolding sorted insert_sorted shards_for shard_le
sorted-shards_for p k [] = refl
sorted-shards_for p k (r ∷ []) = refl
sorted-shards_for p k (r ∷ q ∷ rs) =
    ap (insert_sorted shard_le (planned_shard p k r)) (sorted-shards_for p (suc k) (q ∷ rs))
    ∙ ground arith

of_run-shards_for :
    (p : ShardPlan) (k : ℕ) (rs : List RangeSpec)
    → any (λ s. not (s.logical_run_id == p.run_id)) (shards_for p k rs) ≡ false
unfolding shards_for
of_run-shards_for p k [] = refl
of_run-shards_for p k (r ∷ rs) =
    ground (arith, of_run-shards_for p (suc k) rs, eq_iff p.run_id p.run_id)

-- For an ordered index range, a positive integer size, a plan that passes the guards, and positive
-- limits, the two planners return, one on the result of the other: the waves hold the planned shards
-- in the order of their ranges, each once, keep to the limits, and are numbered and named by their
-- place.
pub plan_waves-plan_shards :
    (p : ShardPlan) (start end n : ℕ) (max_parallel : ℤ) (max_per_wave : Option ℤ)
    (capabilities : Option Capabilities)
    → IsIndexPlan p
    → start ≤ end
    → not_positive max_parallel ≡ false
    → eqb (length (limits max_per_wave capabilities)) 0 ≡ false
    → any not_positive (limits max_per_wave capabilities) ≡ false
    → (shards : List ShardSpec) × (plan_shards p (index_range start end) (whole (pos (suc n)))
        ≡ ok shards)
      × (waves : List WaveSpec) × (plan_waves p.run_id shards max_parallel max_per_wave capabilities
          ≡ ok waves)
      × (planned_ids waves ≡ shard_ids shards)
      × AreWaves p.run_id (limits max_per_wave capabilities) 0 waves
plan_waves-plan_shards p start end n max_parallel max_per_wave capabilities h le parallel capped
      positive =
    let (rs, _, planned, once) = plan_shards-index p start end n h le in
    let shards = shards_for p 0 (index_specs rs) in
    let (waves, returns, ids, are) =
      plan_waves-cover p.run_id shards max_parallel max_per_wave capabilities record {
        parallel = parallel;
        capped = capped;
        positive_caps = positive;
        unique = once;
        of_run = of_run-shards_for p 0 (index_specs rs);
      } in
    (
      shards,
      planned,
      waves,
      returns,
      ids ∙ ap shard_ids (sorted-shards_for p 0 (index_specs rs)),
      are,
    )
