-- ===== src/Kernel/Waves.antt =====
-- `plan_waves` of kernel/core.py.
pub mod Slices
pub mod Cover
use portable_batch_execution.Base.{
  ℕ, zero, suc, ◌/◌, min, String, Bool, true, false, not, ◌&&◌, ◌||◌, ◌==◌, Option, none, some,
  List, [], ◌∷◌, map, any, distinct, length, take, drop, ltb, eqb, Outcome, value_error, raise_if,
  traverse, ◌>>◌,
}
use portable_batch_execution.Base.Decimal.{after, padded}
use portable_batch_execution.Base.Int.{ℤ, pos, negsuc}
use portable_batch_execution.Base.Order.{text_le}
use portable_batch_execution.Base.Sorting.{sorted}
use portable_batch_execution.Base.Steps.{range}
use portable_batch_execution.Contracts.Shard.{ShardSpec, WaveSpec, validate_wave}

-- `key=lambda shard: (shard.ordinal, shard.shard_id)`
unfoldable pub shard_le : ShardSpec → ShardSpec → Bool
shard_le a b = ltb a.ordinal b.ordinal || eqb a.ordinal b.ordinal && text_le a.shard_id b.shard_id

abbrev pub shard_ids : List ShardSpec → List String
shard_ids = map (λ s. s.shard_id)

-- `n <= 0`
abbrev pub not_positive : ℤ → Bool
not_positive (pos zero) = true
not_positive (pos (suc n)) = false
not_positive (negsuc n) = true

-- `max_shards_per_wave` of the backend's capabilities
pub record Capabilities : Type 0 where
  pub max_shards_per_wave : ℤ

unfoldable pub limits : Option ℤ → Option Capabilities → List ℤ
limits none none = []
limits none (some c) = c.max_shards_per_wave ∷ []
limits (some m) none = m ∷ []
limits (some m) (some c) = m ∷ c.max_shards_per_wave ∷ []

-- `min(limits)`, of limits that are positive
pub least : List ℤ → ℕ
least [] = 0
least (pos n ∷ []) = n
least (pos n ∷ zs) = min n (least zs)
least (negsuc n ∷ zs) = 0

-- `f"wave-{ordinal:04d}"`
pub wave_name : ℕ → String
unfolding padded
wave_name ordinal = after "wave-" (padded 4 ordinal)

pub wave_at : String → ℕ → ℕ → List ShardSpec → ℕ → Outcome WaveSpec
unfolding validate_wave wave_name
wave_at run_id max_parallel limit ordered offset = validate_wave (record {
  logical_run_id = run_id;
  wave_id = wave_name (offset / limit);
  ordinal = offset / limit;
  shard_ids = shard_ids (take limit (drop offset ordered));
  max_parallel = max_parallel;
})

abbrev pub magnitude : ℤ → ℕ
magnitude (pos n) = n
magnitude (negsuc n) = 0

pub plan_waves :
    String → List ShardSpec → ℤ → Option ℤ → Option Capabilities → Outcome (List WaveSpec)
unfolding limits least wave_at range
plan_waves run_id shards max_parallel max_per_wave capabilities = do
  raise_if (not_positive max_parallel) (value_error "max_parallel must be positive")
  let ordered = sorted shard_le shards
  raise_if (not (distinct (shard_ids ordered))) (value_error "shard IDs must be unique")
  raise_if (any (λ s. not (s.logical_run_id == run_id)) ordered)
      (value_error "all shards must belong to run_id")
  let caps = limits max_per_wave capabilities
  raise_if (eqb (length caps) 0)
      (value_error "backend capabilities or an explicit max_per_wave is required")
  raise_if (any not_positive caps) (value_error "wave limits must be positive")
  let limit = least caps
  traverse (wave_at run_id (magnitude max_parallel) limit ordered) (range 0 (length ordered) limit)
