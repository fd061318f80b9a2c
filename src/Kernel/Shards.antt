-- ===== src/Kernel/Shards.antt =====
-- `plan_shards` of kernel/core.py.
pub mod Index
pub mod Time
pub mod TimePlan
use portable_batch_execution.Base.{
  ℕ, zero, suc, ◌+◌, ◌-◌, ◌*◌, min, String, Bool, true, false, not, ◌&&◌, Option, none, some, List,
  [], ◌∷◌, map, leb, if◌then◌else◌, Outcome, ok, raise, value_error, overflow_error, raise_if,
  ◌>>=◌, ◌>>◌,
}
use portable_batch_execution.Base.Decimal.{after, padded}
use portable_batch_execution.Base.Int.{ℤ, pos, negsuc}
use portable_batch_execution.Base.Steps.{range}
use portable_batch_execution.Contracts.Artifact.{ArtifactRef}
use portable_batch_execution.Contracts.Datetime.{Datetime, second, moment, datetime_lt, add_micros}
use portable_batch_execution.Contracts.Range.{
  index, time, key, RangeSpec, as_datetime_bounds, both_given, validate_range,
}
use portable_batch_execution.Contracts.Shard.{
  ShardCorrectnessSpec, ShardSpec, is_affine, is_missing, validate_shard,
}
use portable_batch_execution.Kernel.Ranges.{index_of, timedelta, index_range, time_range}

-- A shard size. A float counts through `timedelta(seconds=x)` alone, so it is what that gives: a
-- number of microseconds, or an exception.
pub data ShardSize : Type 0 where
  whole : ℤ → ShardSize
  float : Outcome ℤ → ShardSize
  bool : Bool → ShardSize
  timedelta_of : ℤ → ShardSize

-- The index shard size, if it is a positive integer.
pub index_step : ShardSize → Outcome ℕ
index_step (whole (pos (suc n))) = ok (suc n)
index_step s = raise (value_error "index shard_size must be a positive integer")

abbrev time_size_error : {A : Type 0} → Outcome A
time_size_error = raise (value_error "time ranges require a positive size, start, and end")

abbrev positive : ℤ → Outcome ℕ
positive (pos (suc n)) = ok (suc n)
positive z = time_size_error

-- The time step in microseconds. `timedelta(seconds=n)` overflows past the bound, on either side.
pub time_step : ShardSize → Outcome ℕ
time_step (timedelta_of z) = positive z
time_step (whole (pos n)) = do m ← timedelta (n * second); positive (pos m)
time_step (whole (negsuc n)) =
    if leb (suc n) (999999999 * 86400) then time_size_error else raise overflow_error
time_step (float r) = do z ← r; positive z
time_step (bool b) = time_size_error

-- `[(i, min(i + size, end)) for i in range(start, end, size)]`
pub index_ranges : ℕ → ℕ → ℕ → List (ℕ × ℕ)
unfolding range
index_ranges start end size = map (λ i. (i, min (i + size) end)) (range start end size)

-- The `while cursor < end` loop; the first argument is fuel.
pub time_ranges : ℕ → ℕ → Datetime → Datetime → Outcome (List (Datetime × Datetime))
unfolding datetime_lt add_micros
time_ranges zero step cursor end = ok []
time_ranges (suc fuel) step cursor end = do
  more ← datetime_lt cursor end
  elim more [
    | false ↦ ok []
    | true ↦ do
      next ← add_micros cursor step
      past ← datetime_lt end next
      let nxt = if past then end else next
      rest ← time_ranges fuel step nxt end
      ok ((cursor, nxt) ∷ rest)
  ]

-- The distance of two aware moments in microseconds, and one more: the loop takes no more rounds,
-- since each goes at least a microsecond ahead.
pub loop_fuel : Datetime → Datetime → ℕ
loop_fuel start end = elim start.offset [
  | none ↦ suc (end.micros - start.micros)
  | some os ↦ elim end.offset [
    | none ↦ 1
    | some oe ↦ suc (moment end.micros oe os - moment start.micros os oe)
  ]
]

-- The primary ranges that the source's `ranges` stands for.
pub planned_ranges : RangeSpec → ShardSize → Outcome (List RangeSpec)
unfolding index_of index_step index_ranges time_step as_datetime_bounds time_ranges loop_fuel
    both_given
planned_ranges primary size = elim primary.kind [
  | index ↦ do
    step ← index_step size
    raise_if (not (both_given primary)) (value_error "index ranges require start and end")
    start ← index_of primary.start
    end ← index_of primary.end
    ok (map (λ (a, b). index_range a b) (index_ranges start end step))
  | time ↦ do
    step ← time_step size
    if both_given primary
        then (do
          (start, end) ← as_datetime_bounds primary
          ranges ← time_ranges (loop_fuel start end) step start end
          ok (map (λ (a, b). time_range a b) ranges))
        else time_size_error
  | key ↦ raise (value_error "key ranges require explicit shard boundaries")
]

-- `f"shard-{ordinal:06d}"`
pub shard_name : ℕ → String
unfolding padded
shard_name ordinal = after "shard-" (padded 6 ordinal)

-- What `plan_shards` passes on to every shard.
pub record ShardPlan : Type 0 where
  pub run_id : String
  pub correctness : ShardCorrectnessSpec
  pub input_refs : List ArtifactRef
  pub input_digest : String
  pub execution_fingerprint : String
  pub partition_key : Option String

abbrev pub planned_shard : ShardPlan → ℕ → RangeSpec → ShardSpec
planned_shard p ordinal r = record {
  logical_run_id = p.run_id;
  shard_id = shard_name ordinal;
  ordinal = ordinal;
  partition_key = p.partition_key;
  primary_range = some r;
  correctness = p.correctness;
  input_refs = p.input_refs;
  input_digest = p.input_digest;
  execution_fingerprint = p.execution_fingerprint;
}

-- The list comprehension over `enumerate(ranges)`: each range and each shard is validated.
pub build_shards : ShardPlan → ℕ → List RangeSpec → Outcome (List ShardSpec)
unfolding validate_range validate_shard
build_shards p ordinal [] = ok []
build_shards p ordinal (r ∷ rs) = do
  r' ← validate_range r
  shard ← validate_shard (planned_shard p ordinal r')
  rest ← build_shards p (suc ordinal) rs
  ok (shard ∷ rest)

pub plan_shards : ShardPlan → RangeSpec → ShardSize → Outcome (List ShardSpec)
unfolding planned_ranges build_shards shard_name
plan_shards p primary size = do
  ranges ← planned_ranges primary size
  raise_if (is_affine p.correctness && is_missing p.partition_key)
      (value_error "partition_key is required for partition_affinity")
  build_shards p 0 ranges
