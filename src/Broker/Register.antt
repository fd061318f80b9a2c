-- ===== src/Broker/Register.antt =====
-- `register_broker_private_run` of broker/planning.py, over the controller's state. What other
-- processes do while the lifecycle lock is waited for is an argument, and so is how that ends.
pub mod Call
pub mod Registered
pub mod Existing
pub mod Fresh
pub mod Returns
pub mod Checked
pub mod Again
use portable_batch_execution.A1Controller.{ControllerRoot}
use portable_batch_execution.A1Controller.Python.{text_digest, Runtime}
use portable_batch_execution.Base.{
  index_error, value_error, key_error, raise_if, [], raise, ◌||◌, some, ◌>>◌, false, ◌==◌, List,
  ◌∷◌, ◌>>=◌, not, none, if◌then◌else◌, ◌&&◌, ok, true, Option, Bool, Outcome, String,
}
use portable_batch_execution.Base.Int.{pos}
use portable_batch_execution.Broker.Planning.{
  broker_execution_fingerprint, canonical_operation_params, opaque_wave_id, broker_job_id,
  broker_shard_input_digest, opaque_run_id, Asked, PackModels,
}
use portable_batch_execution.Contracts.Artifact.{ArtifactRef}
use portable_batch_execution.Contracts.Datetime.{Datetime}
use portable_batch_execution.Contracts.Job.{
  replay_eval_batch, media_batch, offline, bounded_network, ml_batch, tabular_batch, external_api,
  job_closed, SecurityProfile, ModelDelivery, Pack, is_given, Fields, JobSpec,
}
use portable_batch_execution.Contracts.Manifest.{not_started, planned, RunManifest}
use portable_batch_execution.Contracts.Shard.{
  validate_shard, validate_wave, ShardSpec, WaveSpec, independent, ExecutionPolicy,
  ShardCorrectnessSpec,
}
use portable_batch_execution.DataPlane.Host.{Bytes}
use portable_batch_execution.Registry.{Bundle}

-- What the registration is called with, its static inputs included.
pub record Registration : Type 0 where
  pub request_id : String
  pub pack : String
  pub operation : String
  pub operation_params : Fields
  pub input_bytes : Bytes
  pub input_media_type : String
  pub public_sha : String
  pub static_input_refs : List ArtifactRef
  pub model_delivery : Option ModelDelivery

pub record Parts : Type 0 where
  pub job : JobSpec
  pub wave : WaveSpec
  pub shard : ShardSpec

pub record RegisteredRun : Type 0 where
  pub parts : Parts
  pub manifest : RunManifest

-- The clock, the end of the wait for the lifecycle lock, and what others did until then.
pub record Surroundings : Type 0 where
  pub now : Datetime
  pub lock : Outcome (Unit {0})
  pub others : ControllerRoot → ControllerRoot

-- `registry.resolve_wave(...)`, with `none` for a KeyError
unfoldable pub found_wave : Outcome Bundle → Outcome (Option Bundle)
found_wave (ok bundle) = ok (some bundle)
found_wave (raise (key_error _)) = ok none
found_wave (raise e) = raise e

abbrev independent_sharding : ShardCorrectnessSpec
independent_sharding = record {
  mode = independent;
  lookback = none;
  lookforward = none;
  halo_before = none;
  halo_after = none;
  global_order_required = false;
  global_finalize_required = false;
}

abbrev broker_policy : ExecutionPolicy
broker_policy = record { max_parallel = 1; max_attempts_per_shard = 4; resume_enabled = true }

-- The profile of a request's job.
pub security_profile_of : String → Option ModelDelivery → SecurityProfile
security_profile_of pack model_delivery =
    if pack == "replay-eval-batch"
    then external_api
    else if is_given model_delivery
    then bounded_network
    else offline

abbrev pub is_refused_delivery : Registration → Bool
is_refused_delivery q =
    is_given q.model_delivery
    && (not (q.pack == "ml-batch") || not (q.operation == "ml.distilbert_pair_binary_scores"))

-- The member of the job's `Literal`; no other pack has canonical parameters.
unfoldable pub pack_of : String → Outcome Pack
pack_of s =
    if s == "tabular-batch"
    then ok tabular_batch
    else if s == "ml-batch"
    then ok ml_batch
    else if s == "media-batch"
    then ok media_batch
    else if s == "replay-eval-batch"
    then ok replay_eval_batch
    else raise (value_error "unsupported pack")

pub first_shard : List ShardSpec → Outcome ShardSpec
first_shard [] = raise index_error
first_shard (s ∷ ss) = validate_shard s

module _ (r : Runtime) where
  -- `_initial_manifest`
  unfoldable pub initial_manifest : JobSpec → WaveSpec → ShardSpec → RunManifest
  initial_manifest job wave shard = record {
    logical_run_id = job.logical_run_id;
    revision = pos 0;
    job_spec_digest = text_digest r (r.job_json job);
    status = planned;
    expected_shard_ids = shard.shard_id ∷ [];
    created_at = job.provenance.created_at;
    updated_at = job.provenance.created_at;
    provenance = job.provenance;
    waves = wave ∷ [];
    discovered_attempts = [];
    canonical_attempts = [];
    completed_shard_ids = [];
    missing_shard_ids = [];
    duplicate_shard_ids = [];
    finalization_status = not_started;
    final_output_refs = [];
    backend_executions = [];
  }

  -- What the registration computes before it looks at the registry.
  unfoldable pub asked_of : PackModels → Registration → Outcome Asked
  asked_of models q = do
    let input_digest = broker_shard_input_digest r q.input_bytes q.static_input_refs
    params ← canonical_operation_params models q.pack q.operation q.operation_params
    raise_if (is_refused_delivery q)
        (value_error "model delivery requires the closed DistilBERT operation")
    ok (record {
      request_id = q.request_id;
      input_digest = input_digest;
      pack = q.pack;
      operation = q.operation;
      operation_params = params;
      execution_fingerprint =
          broker_execution_fingerprint r q.request_id input_digest q.pack q.operation params
            q.public_sha;
      static_input_refs = q.static_input_refs;
    })

  unfoldable pub new_job : Asked → Registration → Pack → ArtifactRef → Datetime → JobSpec
  new_job asked q pack input_ref now = record {
    job_id = broker_job_id r asked.request_id asked.execution_fingerprint;
    logical_run_id = opaque_run_id r asked.request_id;
    pack = pack;
    operation = q.operation;
    input_manifest_ref = input_ref;
    sharding = independent_sharding;
    execution = broker_policy;
    security_profile = security_profile_of q.pack q.model_delivery;
    provenance = record {
      producer = "a1-unix-broker";
      revision = "v1";
      created_at = now;
      parent_run_ids = [];
    };
    adapter = none;
    operation_params = asked.operation_params;
    model_delivery = q.model_delivery;
  }

  unfoldable pub new_shard : Asked → ArtifactRef → ShardSpec
  new_shard asked input_ref = record {
    logical_run_id = opaque_run_id r asked.request_id;
    shard_id = "shard-000000";
    ordinal = 0;
    partition_key = none;
    primary_range = none;
    correctness = independent_sharding;
    input_refs = input_ref ∷ asked.static_input_refs;
    input_digest = asked.input_digest;
    execution_fingerprint = asked.execution_fingerprint;
  }

  unfoldable pub new_wave : Asked → WaveSpec
  new_wave asked = record {
    logical_run_id = opaque_run_id r asked.request_id;
    wave_id = opaque_wave_id r asked.request_id;
    ordinal = 0;
    shard_ids = "shard-000000" ∷ [];
    max_parallel = 1;
  }

  -- The job, the wave and the shard that are registered, each through its validator.
  unfoldable pub new_bundle : Asked → Registration → ArtifactRef → Datetime → Outcome Parts
  new_bundle asked q input_ref now = do
    pack ← pack_of q.pack
    let job = new_job asked q pack input_ref now
    job_closed job
    shard ← validate_shard (new_shard asked input_ref)
    wave ← validate_wave (new_wave asked)
    ok (record { job = job; wave = wave; shard = shard })

  -- `existing["job"]`, `existing["wave"]` and `existing["shards"][0]` through their validators
  pub parts_of : Bundle → Outcome Parts
  parts_of bundle = do
    job_closed bundle.job
    wave ← validate_wave bundle.wave
    shard ← first_shard bundle.shards
    ok (record { job = bundle.job; wave = wave; shard = shard })
