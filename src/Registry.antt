-- ===== src/Registry.antt =====
-- `ClosedWaveRegistry` of controller/closed_wave_registry.py.
pub mod Waves
use portable_batch_execution.Base.{
  String, Bool, true, false, not, ◌==◌, Option, none, some, List, [], ◌∷◌, ◌++◌, map, any,
  if◌then◌else◌, Outcome, ok, raise, value_error, key_error, raise_if, traverse, ◌>>=◌, ◌>>◌,
}
use portable_batch_execution.Base.Decimal.{after}
use portable_batch_execution.Base.Dict.{Dict, get, put}
use portable_batch_execution.Base.Order.{text_le}
use portable_batch_execution.Base.Sorting.{sorted}
use portable_batch_execution.Contracts.Job.{JobSpec}
use portable_batch_execution.Contracts.Manifest.{same_texts}
use portable_batch_execution.Contracts.Shard.{ShardSpec, WaveSpec, validate_shard}
use portable_batch_execution.Kernel.Waves.{shard_ids, shard_le}
use portable_batch_execution.Names.{safe_file_component}

pub record Bundle : Type 0 where
  pub job : JobSpec
  pub wave : WaveSpec
  pub shards : List ShardSpec

-- A run's directory: `job.json`, and the `*.wave.json` by wave identifier.
pub record ClosedRun : Type 0 where
  pub job_file : Option JobSpec
  pub waves : Dict Bundle

abbrev pub Registry : Type 0
Registry = Dict ClosedRun

abbrev pub no_run : ClosedRun
no_run = record { job_file = none; waves = [] }

unfoldable pub run_at : Registry → String → ClosedRun
run_at registry run_id = elim (get registry run_id) [ none ↦ no_run | some r ↦ r ]

-- The checks of `register_closed_wave` before it takes the lock.
pub register_checks : JobSpec → WaveSpec → List ShardSpec → Outcome (Unit {0})
unfolding safe_file_component
register_checks job wave shards = do
  run_id ← safe_file_component job.logical_run_id
  _ ← safe_file_component wave.wave_id
  raise_if (not (wave.logical_run_id == run_id)) (value_error "wave logical_run_id must match job")
  raise_if (any (λ s. not (s.logical_run_id == run_id)) shards)
      (value_error "all shards must belong to the run")
  raise_if (not (same_texts (shard_ids shards) wave.shard_ids))
      (value_error "closed wave shard plan mismatch")

-- The models' own equality is pydantic's.
module _ (same_job : JobSpec → JobSpec → Bool) where
  -- `job.json` is written, or holds the same job.
  pub place_job : Option JobSpec → ClosedRun → JobSpec → Outcome ClosedRun
  place_job (some existing) r job =
      if same_job existing job
      then ok r
      else raise (value_error "run already registered with a different job")
  place_job none r job = ok (record r { job_file = some job })

  pub place_wave : Option Bundle → ClosedRun → Bundle → Outcome (Unit {0}) × ClosedRun
  unfolding put
  place_wave (some b) r bundle = (raise (value_error "wave_id already registered for run"), r)
  place_wave none r bundle = (ok tt, record r { waves = put r.waves bundle.wave.wave_id bundle })

  -- The part under the lock. A job that was written stays, also if the wave is refused.
  pub register_locked : Registry → Bundle → Outcome (Unit {0}) × Registry
  unfolding place_job place_wave run_at put
  register_locked registry bundle =
      let r = run_at registry bundle.job.logical_run_id in
      elim (place_job r.job_file r bundle.job) [
        | raise e ↦ (raise e, registry)
        | ok r' ↦
            let (outcome, after_wave) = place_wave (get r'.waves bundle.wave.wave_id) r' bundle in
            (outcome, put registry bundle.job.logical_run_id after_wave)
      ]

  unfoldable pub register_closed_wave :
      Registry → JobSpec → WaveSpec → List ShardSpec → Outcome (Unit {0}) × Registry
  unfolding register_checks register_locked
  register_closed_wave registry job wave shards = elim (register_checks job wave shards) [
    | raise e ↦ (raise e, registry)
    | ok _ ↦ register_locked registry (record { job = job; wave = wave; shards = shards })
  ]

unfoldable pub resolve_wave : Registry → String → String → Outcome Bundle
unfolding safe_file_component run_at
resolve_wave registry run_id wave_id = do
  _ ← safe_file_component run_id
  _ ← safe_file_component wave_id
  elim (get (run_at registry run_id).waves wave_id) [
    | none ↦ raise (key_error "closed wave not found")
    | some b ↦ ok b
  ]

-- The order of the files of a run's waves: by name.
file_le : String × Bundle → String × Bundle → Bool
file_le (i, b) (j, c) = text_le (after i ".wave.json") (after j ".wave.json")

all_shards : List (String × Bundle) → List ShardSpec
all_shards [] = []
all_shards ((i, b) ∷ bs) = b.shards ++ all_shards bs

unfoldable pub load_shards_for_run : Registry → String → Outcome (List ShardSpec)
unfolding safe_file_component run_at file_le all_shards validate_shard sorted
load_shards_for_run registry run_id = do
  _ ← safe_file_component run_id
  shards ← traverse validate_shard (all_shards (sorted file_le (run_at registry run_id).waves))
  ok (sorted shard_le shards)
