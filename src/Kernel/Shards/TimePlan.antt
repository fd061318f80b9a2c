-- ===== src/Kernel/Shards/TimePlan.antt =====
-- `plan_shards` on time ranges: every range passes the validators, and they tile the primary range.
use portable_batch_execution.Base.{
  ℕ, suc, ◌+◌, ◌≤◌, true, false, ◌&&◌, ◌≡◌, refl, sym, subst, List, [], ◌∷◌, map, any, distinct,
  arith, ok,
}
use portable_batch_execution.Base.Int.{ℤ, pos, pos_part, neg_part}
use portable_batch_execution.Contracts.Datetime.{Datetime, is_naive, end_of_time, datetime_lt}
use portable_batch_execution.Contracts.Range.{RangeSpec, as_datetime_bounds, validate_range}
use portable_batch_execution.Contracts.Shard.{
  extents, is_records, is_affine, is_missing, validate_shard,
}
use portable_batch_execution.Kernel.Ranges.{time_range}
use portable_batch_execution.Kernel.Shards.{
  ShardPlan, timedelta_of, loop_fuel, planned_shard, build_shards, plan_shards,
}
use portable_batch_execution.Kernel.Shards.Index.{shards_for, shards_for-distinct}
use portable_batch_execution.Kernel.Shards.Time.{aware, TimeTiles, time_ranges-TimeTiles}
use portable_batch_execution.Kernel.Waves.{shard_ids}

abbrev pub IsAware : Datetime → Type 0
IsAware d = is_naive d ≡ false

as_datetime_bounds-time :
    (a b : Datetime)
    → IsAware a
    → IsAware b
    → datetime_lt b a ≡ ok false
    → as_datetime_bounds (time_range a b) ≡ ok (a, b)
unfolding as_datetime_bounds datetime_lt
as_datetime_bounds-time a b ha hb le = ground arith

-- An ordered range of aware datetimes passes the validators of `RangeSpec`.
pub validate_range-time :
    (a b : Datetime)
    → IsAware a
    → IsAware b
    → datetime_lt b a ≡ ok false
    → validate_range (time_range a b) ≡ ok (time_range a b)
unfolding validate_range
validate_range-time a b ha hb le = ground arith

-- What comes after an aware datetime is aware, and does not come before it.
after-IsAware :
    (a b : Datetime)
    → IsAware a
    → datetime_lt a b ≡ ok true
    → IsAware b × (datetime_lt b a ≡ ok false)
unfolding datetime_lt
after-IsAware a b ha lt = ground arith

-- The guards of `plan_shards` and of the validators that look at the plan alone: a partition key
-- where the mode wants one, and no record extents.
pub record IsTimePlan (p : ShardPlan) : Type 0 where
  pub keyed : (is_affine p.correctness && is_missing p.partition_key) ≡ false
  pub time_extents : any is_records (extents p.correctness) ≡ false

validate_shard-time :
    (p : ShardPlan) (k : ℕ) (a b : Datetime)
    → IsTimePlan p
    → validate_shard (planned_shard p k (time_range a b)) ≡ ok (planned_shard p k (time_range a b))
unfolding validate_shard
validate_shard-time p k a b h = rw (h.keyed, h.time_extents)

abbrev pub time_specs : List (Datetime × Datetime) → List RangeSpec
time_specs = map (λ (a, b). time_range a b)

build_shards-time :
    (p : ShardPlan) (k step : ℕ) (cursor end : Datetime) (rs : List (Datetime × Datetime))
    → IsTimePlan p
    → IsAware cursor
    → TimeTiles step cursor end rs
    → build_shards p k (time_specs rs) ≡ ok (shards_for p k (time_specs rs))
unfolding build_shards shards_for
build_shards-time p k step cursor end [] h ha t = refl
build_shards-time p k step cursor end ((a, b) ∷ rs) h ha t =
    let aware_a : IsAware a = subst IsAware (sym t.0.0) ha in
    let (aware_b, le) = after-IsAware a b aware_a t.0.1 in
    rw (validate_range-time a b aware_a aware_b le) (
      rw (validate_shard-time p k a b h)
        (rw (build_shards-time p (suc k) step b end rs h aware_b t.1)))

-- For an ordered range of aware datetimes, a positive `timedelta`, a plan that passes the guards,
-- and room for one more step before the year 10000, `plan_shards` returns: its loop ends, its
-- shards, numbered and named from 0, carry ranges that tile the primary range in steps of the size,
-- and no two of them have one name.
pub plan_shards-time :
    (p : ShardPlan) (s e n : ℕ) (os oe : ℤ)
    → IsTimePlan p
    → datetime_lt (aware e oe) (aware s os) ≡ ok false
    → e + neg_part oe + pos_part os + suc n ≤ end_of_time
    → (rs : List (Datetime × Datetime)) × TimeTiles (suc n) (aware s os) (aware e oe) rs
      × (plan_shards p (time_range (aware s os) (aware e oe)) (timedelta_of (pos (suc n)))
          ≡ ok (shards_for p 0 (time_specs rs)))
      × (distinct (shard_ids (shards_for p 0 (time_specs rs))) ≡ true)
unfolding plan_shards loop_fuel
plan_shards-time p s e n os oe h ordered room =
    let (rs, returns, tiles) =
      time_ranges-TimeTiles (suc n) e os oe (omega arith) room (loop_fuel (aware s os) (aware e oe))
        s (omega arith) in
    (
      rs,
      tiles,
      rw (as_datetime_bounds-time (aware s os) (aware e oe) refl refl ordered) (
          rw returns
            (rw h.keyed (build_shards-time p 0 (suc n) (aware s os) (aware e oe) rs h refl tiles))),
      shards_for-distinct p 0 (time_specs rs),
    )
