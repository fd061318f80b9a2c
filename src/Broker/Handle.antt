-- ===== src/Broker/Handle.antt =====
-- `UnixBrokerService.handle_payload` of broker/service.py, from the binding to the answer, and
-- `recover_request_state`.
pub mod Answers
pub mod Finished
pub mod Ended
use portable_batch_execution.Base.{
  not, type_error, lock_timeout, [], ◌∷◌, ◌>>=◌, ◌==◌, value_error, raise, List, Option,
  if◌then◌else◌, some, none, String, ok, Outcome,
}
use portable_batch_execution.Base.Exec.{fail, try_then, reading, and_then, done, Exec}
use portable_batch_execution.Base.Int.{pos, ℤ}
use portable_batch_execution.Broker.Config.{model_delivery_for, static_input_refs_for}
use portable_batch_execution.Broker.Drive.{output_at, head_if_complete}
use portable_batch_execution.Broker.Drive.Reconcile.{reconcile_if_changed}
use portable_batch_execution.Broker.Planning.{
  opaque_wave_id, opaque_run_id, Asked, validate_registered_wave_binding,
}
use portable_batch_execution.Broker.Register.{first_shard, found_wave, Registration}
use portable_batch_execution.Broker.Register.Call.{register_broker_private_run}
use portable_batch_execution.Broker.Requests.{matches}
use portable_batch_execution.Broker.Responses.{
  AttemptOutput, succeeded_response, exhausted_response, failed_response, BrokerExecuteResponse,
}
use portable_batch_execution.Broker.Root.{load_request, save_request, in_controller, BrokerRoot}
use portable_batch_execution.Broker.Service.{
  refused, admitted, drive_to_terminal, sync_dispatch, admit, Admission, BrokerExecuteRequest,
  Service,
}
use portable_batch_execution.Contracts.Artifact.{ArtifactRef}
use portable_batch_execution.Contracts.Attempt.{ShardAttemptRecord}
use portable_batch_execution.Contracts.Job.{job_closed, JobSpec}
use portable_batch_execution.Contracts.Shard.{ShardSpec}
use portable_batch_execution.DataPlane.Attempts.{read_attempts}
use portable_batch_execution.DataPlane.Host.{Bytes}
use portable_batch_execution.Kernel.Completeness.{completeness}
use portable_batch_execution.Lifecycle.Records.{RequestBinding, BrokerRequestState}
use portable_batch_execution.Registry.{resolve_wave, load_shards_for_run, Bundle}

-- What handling a request ends with; `none` where the turns are over before the loop is.
abbrev pub Handled : Type 0
Handled = Exec BrokerRoot (Option BrokerExecuteResponse)

abbrev answer : BrokerExecuteResponse → Handled
answer response = done (some response)

-- The state that registration and recovery begin with.
unfoldable pub active_state :
    BrokerExecuteRequest → RequestBinding → String → String → String → BrokerRequestState
active_state q binding run_id wave_id shard_id = record {
  request_id = q.request_id;
  binding = binding;
  logical_run_id = run_id;
  wave_id = wave_id;
  shard_id = shard_id;
  status = "active";
  execution_id = none;
  output_sha256 = none;
  output_size_bytes = none;
  output_media_type = none;
  dispatch_count = pos 0;
  last_dispatched_failure_count = pos 0;
  last_reconciled_attempt_marker = none;
}

-- What the recovery compares the registered wave with.
pub asked_by : BrokerExecuteRequest → RequestBinding → List ArtifactRef → Asked
asked_by q binding refs = record {
  request_id = q.request_id;
  input_digest = binding.input_digest;
  pack = binding.pack;
  operation = binding.operation;
  operation_params = binding.operation_params;
  execution_fingerprint = binding.execution_fingerprint;
  static_input_refs = refs;
}

-- `except ValueError as exc:` of the recovery
pub as_conflict : Outcome (Unit {0}) → Outcome (Unit {0})
as_conflict (ok u) = ok u
as_conflict (raise (value_error why)) = raise (value_error "request_binding_conflict")
as_conflict (raise e) = raise e

module _ (v : Service) where
  first_found : ShardSpec → BrokerExecuteRequest → RequestBinding → JobSpec → Outcome ShardSpec
  first_found shard q binding job =
      as_conflict (
        validate_registered_wave_binding v.runtime
          (asked_by q binding (static_input_refs_for v.config binding.pack binding.operation)) job
          shard)
      >>= λ _. ok shard

  -- The shard of the registered wave, if it is bound to the request.
  pub recovered_shard : BrokerExecuteRequest → RequestBinding → Bundle → Outcome ShardSpec
  unfolding first_found
  recovered_shard q binding bundle = job_closed bundle.job >>= λ _.
      first_shard bundle.shards >>= λ shard. first_found shard q binding bundle.job

  -- `recover_request_state`
  pub recover_request_state :
      BrokerExecuteRequest → RequestBinding → Bundle → Exec BrokerRoot BrokerRequestState
  recover_request_state q binding bundle =
      and_then (reading λ _. recovered_shard q binding bundle) λ shard.
        and_then
          (sync_dispatch v
            (active_state q binding (opaque_run_id v.runtime q.request_id)
              (opaque_wave_id v.runtime q.request_id) shard.shard_id)
            shard)
          λ s. and_then (save_request s) λ _. done s

  pub registration_of : BrokerExecuteRequest → Bytes → Registration
  registration_of q input_bytes = record {
    request_id = q.request_id;
    pack = q.pack;
    operation = q.operation;
    operation_params = q.operation_params;
    input_bytes = input_bytes;
    input_media_type = q.input_media_type;
    public_sha = v.config.public_sha;
    static_input_refs = static_input_refs_for v.config q.pack q.operation;
    model_delivery = model_delivery_for v.config q.pack q.operation;
  }

  -- `_register_request`
  pub register_request :
      BrokerExecuteRequest → RequestBinding → Bytes → Exec BrokerRoot BrokerRequestState
  register_request q binding input_bytes =
      and_then
        (in_controller
          (register_broker_private_run v.runtime v.models v.around (registration_of q input_bytes)))
        λ run.
          let s =
            active_state q binding run.parts.wave.logical_run_id run.parts.wave.wave_id
              run.parts.shard.shard_id in
          and_then (save_request s) λ _. done s

  -- The answer with the output, and the state with it where it has none.
  pub answer_output : BrokerRequestState → AttemptOutput → Option ℤ → Handled
  answer_output s o (some size) = answer (succeeded_response v.runtime s o)
  answer_output s o none =
      let s' = record s { output_size_bytes = some o.size_bytes; output_sha256 = some o.digest } in
      and_then (save_request s') λ _. answer (succeeded_response v.runtime s' o)

  -- The answer for the attempt that `completeness` settles on.
  pub answer_attempt : BrokerRequestState → Option ShardAttemptRecord → Handled
  answer_attempt s none = answer (failed_response s.request_id "broker_internal_error")
  answer_attempt s (some attempt) =
      and_then (reading λ root. output_at v.runtime root attempt.output_refs)
        λ o. answer_output s o s.output_size_bytes

  -- `_success_from_state`, from `completeness` on
  pub success_of : BrokerRequestState → List ShardAttemptRecord → List ShardSpec → Handled
  success_of s attempts shards =
      and_then (reading λ _. completeness (s.shard_id ∷ []) attempts shards)
        λ c. answer_attempt s (head_if_complete c)

  pub reconcile_only :
      BrokerRequestState
      → List ShardAttemptRecord
      → List ShardSpec
      → Exec BrokerRoot BrokerRequestState
  reconcile_only s attempts (shard ∷ []) = reconcile_if_changed v.runtime shard attempts s
  reconcile_only s attempts shards = done s

  -- `_success_from_state`
  pub success_from_state : BrokerRequestState → Handled
  unfolding reconcile_only
  success_from_state s =
      and_then (reading λ root. load_shards_for_run root.controller.registry s.logical_run_id)
        λ shards.
          and_then (reading λ root. read_attempts root.controller.plane s.logical_run_id)
            λ attempts.
              and_then (reconcile_only s attempts shards) λ s'. success_of s' attempts shards

  -- The end of `handle_payload`: from the state on.
  pub continue_with : String → BrokerRequestState → Handled
  continue_with request_id s =
      if s.status == "succeeded"
      then success_from_state s
      else if s.status == "exhausted"
      then answer (exhausted_response s)
      else drive_to_terminal v request_id s

  -- The handlers around the registration and the recovery.
  pub on_registered : String → Outcome BrokerRequestState → Handled
  on_registered request_id (ok s) = continue_with request_id s
  on_registered request_id (raise lock_timeout) = answer (failed_response request_id "broker_busy")
  on_registered request_id (raise (value_error why)) =
      if why == "request_binding_conflict"
      then answer (failed_response request_id "request_id_conflict")
      else answer (failed_response request_id "broker_internal_error")
  on_registered request_id (raise e) = fail e

  pub on_recovered : String → Outcome BrokerRequestState → Handled
  on_recovered request_id (ok s) = continue_with request_id s
  on_recovered request_id (raise (value_error why)) =
      if why == "request_binding_conflict"
      then answer (failed_response request_id "request_id_conflict")
      else fail (value_error why)
  on_recovered request_id (raise e) = fail e

  -- A request without a state: its wave is registered, or its state is recovered from the wave.
  pub without_state : BrokerExecuteRequest → RequestBinding → Bytes → Option Bundle → Handled
  without_state q binding input_bytes none =
      try_then (register_request q binding input_bytes) (on_registered q.request_id)
  without_state q binding input_bytes (some bundle) =
      try_then (recover_request_state q binding bundle) (on_recovered q.request_id)

  pub with_state :
      BrokerExecuteRequest → RequestBinding → Bytes → Option BrokerRequestState → Handled
  with_state q binding input_bytes none =
      and_then
        (reading λ root. found_wave (
          resolve_wave root.controller.registry (opaque_run_id v.runtime q.request_id)
            (opaque_wave_id v.runtime q.request_id)))
        λ found. without_state q binding input_bytes found
  with_state q binding input_bytes (some s) =
      if not (matches s.binding binding)
      then answer (failed_response q.request_id "request_id_conflict")
      else continue_with q.request_id s

  pub on_admission : BrokerExecuteRequest → Admission → Handled
  on_admission q (refused error_code) = answer (failed_response q.request_id error_code)
  on_admission q (admitted binding input_bytes) =
      and_then (reading λ root. load_request root q.request_id)
        λ s. with_state q binding input_bytes s

  -- `handle_payload`, of what `parse_request` makes of the payload and the identifier in it
  pub handle_payload : ℤ → String → Outcome BrokerExecuteRequest → Handled
  handle_payload peer_uid named (ok q) =
      and_then (reading λ _. admit v peer_uid q) λ admission. on_admission q admission
  handle_payload peer_uid named (raise type_error) =
      answer (failed_response named "request_invalid")
  handle_payload peer_uid named (raise (value_error _)) =
      answer (failed_response named "request_invalid")
  handle_payload peer_uid named (raise e) = fail e
