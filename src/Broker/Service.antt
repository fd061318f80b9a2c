-- ===== src/Broker/Service.antt =====
-- `UnixBrokerService.handle_payload` of broker/service.py for a request that is parsed: its guards,
-- the state that it begins with, and its answer.
pub mod Synced
pub mod Answered
pub mod Within
use portable_batch_execution.A1Controller.{read_wave_dispatch_history}
use portable_batch_execution.A1Controller.History.{latest, DispatchRecord}
use portable_batch_execution.A1Controller.Python.{Runtime}
use portable_batch_execution.Base.{
  min, [], suc, ◌∷◌, length, false, some, ltb, value_error, raise, not, ◌==◌, contains, Option,
  raise_if, Bool, ok, ◌>>=◌, List, if◌then◌else◌, String, Outcome,
}
use portable_batch_execution.Base.Exec.{done, reading, and_then, Exec}
use portable_batch_execution.Base.Int.{pos, ltb_ℤ, ℤ}
use portable_batch_execution.Broker.Attempts.{matching_terminal_attempts}
use portable_batch_execution.Broker.Config.{authorize, static_input_refs_for, BrokerConfig}
use portable_batch_execution.Broker.Drive.{drive_loop, Turn}
use portable_batch_execution.Broker.Planning.{
  broker_execution_fingerprint, broker_shard_input_digest, canonical_operation_params, PackModels,
}
use portable_batch_execution.Broker.Register.{pack_of, Surroundings}
use portable_batch_execution.Broker.Responses.{failed_response, BrokerExecuteResponse}
use portable_batch_execution.Broker.Root.{save_request, BrokerRoot}
use portable_batch_execution.Contracts.Attempt.{ShardAttemptRecord}
use portable_batch_execution.Contracts.Job.{job_closed, pack_ops, Pack, Fields}
use portable_batch_execution.Contracts.Shard.{ExecutionPolicy, ShardSpec}
use portable_batch_execution.DataPlane.Attempts.{read_attempts}
use portable_batch_execution.DataPlane.Host.{Bytes}
use portable_batch_execution.Lifecycle.Records.{RequestBinding, BrokerRequestState}
use portable_batch_execution.Registry.{load_shards_for_run, resolve_wave}

-- `BrokerExecuteRequest`
pub record BrokerExecuteRequest : Type 0 where
  pub request_id : String
  pub pack : String
  pub operation : String
  pub operation_params : Fields
  pub input_media_type : String
  pub input_b64 : String

-- The service and what it meets while it handles a message: its runtime, configuration and pack
-- models, the registration's surroundings, whether a backend is configured, and the loop's turns.
pub record Service : Type 0 where
  pub runtime : Runtime
  pub config : BrokerConfig
  pub models : PackModels
  pub around : Surroundings
  pub has_backend : Bool
  pub turns : List Turn

-- A request that passes the guards has a binding and its input; one that does not, an error code.
pub data Admission : Type 0 where
  refused : String → Admission
  admitted : RequestBinding → Bytes → Admission

is_operation : String → Outcome Pack → Bool
is_operation operation (ok pack) = contains (pack_ops pack) operation
is_operation operation (raise e) = false

-- `_ALLOWED_BROKER_PACKS` and the operations of the pack
unfoldable pub is_allowed_operation : String → String → Bool
unfolding is_operation
is_allowed_operation pack operation =
    if pack == "replay-eval-batch"
    then operation == "replay_eval.external_api_evaluation"
    else is_operation operation (pack_of pack)

max_ℤ : ℤ → ℤ → ℤ
max_ℤ a b = if ltb_ℤ a b then b else a

module _ (v : Service) where
  -- `request.decode_input(...)`
  decode_input : BrokerExecuteRequest → Outcome Bytes
  decode_input q = v.runtime.b64decode q.input_b64 >>= λ payload.
      raise_if (ltb v.config.max_input_bytes (length payload))
        (value_error "input exceeds broker size bound")
      >>= λ _. ok payload

  unfoldable pub binding_of : BrokerExecuteRequest → Bytes → Fields → RequestBinding
  binding_of q input_bytes params =
      let refs = static_input_refs_for v.config q.pack q.operation in
      let input_digest = broker_shard_input_digest v.runtime input_bytes refs in
      record {
        input_digest = input_digest;
        pack = q.pack;
        operation = q.operation;
        operation_params = params;
        execution_fingerprint =
            broker_execution_fingerprint v.runtime q.request_id input_digest q.pack q.operation
              params v.config.public_sha;
        public_sha = v.config.public_sha;
      }

  admit_params : BrokerExecuteRequest → Bytes → Outcome Fields → Outcome Admission
  admit_params q input_bytes (ok params) =
      ok (admitted (binding_of q input_bytes params) input_bytes)
  admit_params q input_bytes (raise (value_error _)) = ok (refused "operation_params_invalid")
  admit_params q input_bytes (raise e) = raise e

  admit_input : BrokerExecuteRequest → Outcome Bytes → Outcome Admission
  unfolding admit_params
  admit_input q (ok input_bytes) =
      admit_params q input_bytes
        (canonical_operation_params v.models q.pack q.operation q.operation_params)
  admit_input q (raise (value_error _)) = ok (refused "input_invalid")
  admit_input q (raise e) = raise e

  -- The guards up to the binding.
  unfoldable pub admit : ℤ → BrokerExecuteRequest → Outcome Admission
  unfolding admit_input decode_input
  admit peer_uid q =
      if not (is_allowed_operation q.pack q.operation)
      then ok (refused "operation_not_allowed")
      else if not (authorize v.config peer_uid q.pack q.operation)
      then ok (refused "peer_not_authorized")
      else admit_input q (decode_input q)

  -- The rest of `_sync_dispatch_from_controller`, for a history longer than the count.
  pub synced :
      BrokerRequestState
      → ShardSpec
      → DispatchRecord
      → List DispatchRecord
      → List ShardAttemptRecord
      → BrokerRequestState
  unfolding max_ℤ
  synced s shard first others attempts = record s {
    dispatch_count = pos (suc (length others));
    execution_id = some (latest first others).execution_id;
    last_dispatched_failure_count =
        max_ℤ s.last_dispatched_failure_count
          (pos (min (length (matching_terminal_attempts shard attempts)) (suc (length others))));
  }

  unfoldable pub sync_history :
      BrokerRequestState → ShardSpec → List DispatchRecord → Exec BrokerRoot BrokerRequestState
  sync_history s shard [] = done s
  sync_history s shard (first ∷ others) =
      if not (ltb_ℤ s.dispatch_count (pos (suc (length others))))
      then done s
      else and_then (reading λ root. read_attempts root.controller.plane s.logical_run_id)
          λ attempts.
            let s' = synced s shard first others attempts in and_then (save_request s') λ _. done s'

  -- `_sync_dispatch_from_controller`
  unfoldable pub sync_dispatch : BrokerRequestState → ShardSpec → Exec BrokerRoot BrokerRequestState
  sync_dispatch s shard =
      and_then
        (reading λ root.
          read_wave_dispatch_history v.runtime.str root.controller s.logical_run_id s.wave_id)
        λ history. sync_history s shard history

  -- The job's policy, from the wave's file
  pub wave_policy : String → String → BrokerRoot → Outcome ExecutionPolicy
  wave_policy run_id wave_id root =
      resolve_wave root.controller.registry run_id wave_id >>= λ bundle.
      job_closed bundle.job >>= λ _. ok bundle.job.execution

  pub drive_shards :
      String → BrokerRequestState → List ShardSpec → Exec BrokerRoot (Option BrokerExecuteResponse)
  unfolding wave_policy
  drive_shards request_id s [] = done (some (failed_response request_id "broker_internal_error"))
  drive_shards request_id s (shard ∷ []) =
      and_then (reading (wave_policy s.logical_run_id s.wave_id)) λ policy.
        and_then (sync_dispatch s shard) λ s'.
          drive_loop v.runtime (record { request_id = request_id; shard = shard; policy = policy })
            v.turns s'
  drive_shards request_id s (shard ∷ another ∷ more) =
      done (some (failed_response request_id "broker_internal_error"))

  -- `_drive_to_terminal`
  unfoldable pub drive_to_terminal :
      String → BrokerRequestState → Exec BrokerRoot (Option BrokerExecuteResponse)
  unfolding drive_shards
  drive_to_terminal request_id s =
      if not v.has_backend
      then done (some (failed_response request_id "backend_unavailable"))
      else and_then (reading λ root. load_shards_for_run root.controller.registry s.logical_run_id)
          λ shards. drive_shards request_id s shards
