-- ===== src/Tests.antt =====
-- Sample data of a run of three shards, and the theorems at these.
pub mod Kernel
pub mod Planning
pub mod Storage
pub mod Registering
pub mod Lifecycle
pub mod Collecting
pub mod Brokering
pub mod Registrations
pub mod Driving
pub mod Serializing
pub mod Delivering
use portable_batch_execution.Base.{
  String, Bool, true, false, ◌==◌, Option, none, some, List, [], ◌∷◌, if◌then◌else◌,
}
use portable_batch_execution.Base.Int.{ℤ, pos, negsuc}
use portable_batch_execution.Contracts.Artifact.{ArtifactRef, Provenance}
use portable_batch_execution.Contracts.Attempt.{AttemptStatus, ShardAttemptRecord}
use portable_batch_execution.Contracts.Datetime.{Datetime}
use portable_batch_execution.Contracts.Job.{
  JobSpec, tabular_batch, offline, array, dict, item, no_more, field, closed_brace, int,
}
use portable_batch_execution.Contracts.Manifest.{RunManifest, RunStatus, not_started, ready}
use portable_batch_execution.Contracts.Shard.{
  ShardCorrectnessSpec, independent, ShardSpec, ExecutionPolicy,
}

abbrev pub noon : Datetime
noon = record { micros = 43200000000; offset = some (pos 0) }

abbrev pub independent_shards : ShardCorrectnessSpec
independent_shards = record {
  mode = independent;
  lookback = none;
  lookforward = none;
  halo_before = none;
  halo_after = none;
  global_order_required = false;
  global_finalize_required = true;
}

abbrev pub shard : String → ShardSpec
shard i = record {
  logical_run_id = "run";
  shard_id = i;
  ordinal = 0;
  partition_key = none;
  primary_range = none;
  correctness = independent_shards;
  input_refs = [];
  input_digest = "in";
  execution_fingerprint = "code";
}

abbrev pub shards : List ShardSpec
shards = shard "b" ∷ shard "a" ∷ shard "c" ∷ []

abbrev pub attempt : String → String → AttemptStatus → ShardAttemptRecord
attempt i attempt_id status = record {
  logical_run_id = "run";
  shard_id = i;
  attempt_id = attempt_id;
  status = status;
  input_digest = "in";
  execution_fingerprint = "code";
  started_at = noon;
  finished_at = noon;
  wave_id = none;
  output_refs = [];
  output_digest = some "out";
  counts = [];
  failure = none;
  backend_execution_id = none;
  backend_job_id = none;
}

-- One success of "a", two of "b", none of "c".
abbrev pub attempts : List ShardAttemptRecord
attempts =
    attempt "a" "a1" AttemptStatus.succeeded
    ∷ attempt "b" "b1" AttemptStatus.succeeded
    ∷ attempt "b" "b2" AttemptStatus.succeeded
    ∷ attempt "c" "c1" AttemptStatus.failed
    ∷ []

abbrev pub three_tries : ExecutionPolicy
three_tries = record { max_parallel = 2; max_attempts_per_shard = 3; resume_enabled = true }

abbrev pub manifest : RunManifest
manifest = record {
  logical_run_id = "run";
  revision = pos 0;
  job_spec_digest = "job";
  status = RunStatus.planned;
  expected_shard_ids = "a" ∷ "b" ∷ "c" ∷ [];
  created_at = noon;
  updated_at = noon;
  provenance = record {
    producer = "tests";
    revision = "1";
    created_at = noon;
    parent_run_ids = [];
  };
  waves = [];
  discovered_attempts = [];
  canonical_attempts = [];
  completed_shard_ids = [];
  missing_shard_ids = [];
  duplicate_shard_ids = [];
  finalization_status = not_started;
  final_output_refs = [];
  backend_executions = [];
}

abbrev pub ready_manifest : RunManifest
ready_manifest = record manifest { finalization_status = ready }

abbrev pub hex_digits : String
hex_digits = "0123456789abcdef0123456789abcdef0123456789abcdef0123456789abcdef"

abbrev pub output : ArtifactRef
output = record {
  object_id = "output";
  uri = "https://store.example/output";
  sha256 = "sha256:0123456789abcdef0123456789abcdef0123456789abcdef0123456789abcdef";
  media_type = none;
  size_bytes = none;
}

abbrev pub sort_job : JobSpec
sort_job = record {
  job_id = "job";
  logical_run_id = "run";
  pack = tabular_batch;
  operation = "tabular.sort";
  input_manifest_ref = output;
  sharding = independent_shards;
  execution = record { max_parallel = 2; max_attempts_per_shard = 3; resume_enabled = true };
  security_profile = offline;
  provenance = record {
    producer = "tests";
    revision = "1";
    created_at = noon;
    parent_run_ids = [];
  };
  adapter = none;
  operation_params =
      field "by" (array (item (dict (field "sql" (int (pos 1)) closed_brace)) no_more))
        closed_brace;
  model_delivery = none;
}
