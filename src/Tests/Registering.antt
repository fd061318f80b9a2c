-- ===== src/Tests/Registering.antt =====
-- The theorems on the closed wave registry at one wave of the sample run.
use portable_batch_execution.Base.{Bool, ◌==◌, ◌≡◌, refl, some, [], ◌∷◌, ok}
use portable_batch_execution.Contracts.Job.{JobSpec}
use portable_batch_execution.Contracts.Shard.{WaveSpec}
use portable_batch_execution.Names.{safe_file_component, is_safe_component}
use portable_batch_execution.Registry.{Bundle, Registry, register_closed_wave, resolve_wave}
use portable_batch_execution.Registry.Waves.{register_closed_wave-resolves}
use portable_batch_execution.Tests.{shard, shards, sort_job}

abbrev same_id : JobSpec → JobSpec → Bool
same_id a b = a.job_id == b.job_id

abbrev wave : WaveSpec
wave = record {
  logical_run_id = "run";
  wave_id = "wave-0000";
  ordinal = 0;
  shard_ids = "b" ∷ "a" ∷ "c" ∷ [];
  max_parallel = 2;
}

abbrev bundle : Bundle
bundle = record { job = sort_job; wave = wave; shards = shards }

abbrev registry : Registry
registry = ("run", record { job_file = some sort_job; waves = ("wave-0000", bundle) ∷ [] }) ∷ []

abbrev next_wave : WaveSpec
next_wave = record wave { wave_id = "wave-0001"; ordinal = 1; shard_ids = "d" ∷ [] }

register_closed_wave-resolves_example :
    resolve_wave
      (register_closed_wave same_id registry sort_job next_wave (shard "d" ∷ [])).1
      "run"
      "wave-0001"
    ≡ ok (record { job = sort_job; wave = next_wave; shards = shard "d" ∷ [] })
unfolding register_closed_wave safe_file_component is_safe_component
register_closed_wave-resolves_example =
    register_closed_wave-resolves same_id registry sort_job next_wave (shard "d" ∷ []) refl refl
      refl
