-- ===== src/Contracts/Shard.antt =====
-- `Extent`, `ShardCorrectnessSpec`, `ExecutionPolicy`, `ShardSpec` and `WaveSpec` of
-- contracts/models.py.
use portable_batch_execution.Base.{
  ℕ, String, Bool, true, false, not, ◌&&◌, ◌||◌, Option, none, some, List, [], ◌∷◌, ◌++◌, any,
  distinct, truthy, eqb, length, Outcome, ok, value_error, raise_if, ◌>>◌,
}
use portable_batch_execution.Contracts.Range.{RangeSpec, index, time, key}
use portable_batch_execution.Contracts.Artifact.{ArtifactRef}

pub data ExtentUnit : Type 0 where
  records seconds minutes hours days : ExtentUnit

pub record Extent : Type 0 where
  pub value : ℕ
  pub unit : ExtentUnit

pub data Mode : Type 0 where
  independent partition_affinity : Mode

pub record ShardCorrectnessSpec : Type 0 where
  pub mode : Mode
  pub lookback : Option Extent
  pub lookforward : Option Extent
  pub halo_before : Option Extent
  pub halo_after : Option Extent
  pub global_order_required : Bool
  pub global_finalize_required : Bool

-- `max_parallel` and `max_attempts_per_shard` are positive (`Field(gt=0)`).
pub record ExecutionPolicy : Type 0 where
  pub max_parallel : ℕ
  pub max_attempts_per_shard : ℕ
  pub resume_enabled : Bool

abbrev pub is_records : Extent → Bool
is_records e = elim e.unit [ records ↦ true | _ ↦ false ]

abbrev given : Option Extent → List Extent
given none = []
given (some e) = e ∷ []

-- The extents that are not `None`, in the order of the fields.
unfoldable pub extents : ShardCorrectnessSpec → List Extent
extents c = given c.lookback ++ (given c.lookforward ++ (given c.halo_before ++ given c.halo_after))

-- `compatible_extents`: the set of the answers to `unit == "records"` has one member at most.
unfoldable pub validate_correctness : ShardCorrectnessSpec → Outcome ShardCorrectnessSpec
unfolding extents
validate_correctness c = do
  raise_if (any is_records (extents c) && any (λ e. not (is_records e)) (extents c))
      (value_error "record and time extents cannot be mixed")
  ok c

pub record ShardSpec : Type 0 where
  pub logical_run_id : String
  pub shard_id : String
  pub ordinal : ℕ
  pub partition_key : Option String
  pub primary_range : Option RangeSpec
  pub correctness : ShardCorrectnessSpec
  pub input_refs : List ArtifactRef
  pub input_digest : String
  pub execution_fingerprint : String

abbrev pub is_affine : ShardCorrectnessSpec → Bool
is_affine c = elim c.mode [ partition_affinity ↦ true | independent ↦ false ]

-- `not partition_key`
abbrev pub is_missing : Option String → Bool
is_missing none = true
is_missing (some s) = not (truthy s)

-- `affinity`
unfoldable pub validate_shard : ShardSpec → Outcome ShardSpec
unfolding extents
validate_shard s = do
  raise_if (is_affine s.correctness && is_missing s.partition_key)
      (value_error "partition key required")
  elim s.primary_range [
    | none ↦ ok tt
    | some r ↦ elim r.kind [
      | index ↦
          raise_if (any (λ e. not (is_records e)) (extents s.correctness))
            (value_error "index shards require record extents")
      | time ↦
          raise_if (any is_records (extents s.correctness))
            (value_error "time shards require time extents")
      | key ↦
          raise_if (any (λ _. true) (extents s.correctness))
            (value_error "key shards cannot expand numeric or time extents")
    ]
  ]
  ok s

pub record WaveSpec : Type 0 where
  pub logical_run_id : String
  pub wave_id : String
  pub ordinal : ℕ
  pub shard_ids : List String
  pub max_parallel : ℕ

-- `unique`, behind `Field(gt=0)` on `max_parallel`
unfoldable pub validate_wave : WaveSpec → Outcome WaveSpec
validate_wave w = do
  raise_if (eqb w.max_parallel 0) (value_error "max_parallel must be greater than 0")
  raise_if (eqb (length w.shard_ids) 0 || not (distinct w.shard_ids))
      (value_error "unique nonempty shards")
  ok w
