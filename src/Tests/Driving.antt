-- ===== src/Tests/Driving.antt =====
-- The theorems on the dispatches of one request that is registered.
use portable_batch_execution.A1Controller.{
  history_among, wave_history, waves_of, no_dispatches, record_dispatch, prepared_dispatch,
  dispatch_content, read_dispatch_state, Backend, read_wave_dispatch_history, dispatch_private_wave,
}
use portable_batch_execution.A1Controller.Durable.{dispatch_private_wave-IsDurable, IsDurable}
use portable_batch_execution.A1Controller.History.{
  serialize_entry, merged_history, find_execution, entry_history, DispatchRecord,
  BackendExecutionRef,
}
use portable_batch_execution.Base.{
  ◌∙◌, ◌≤◌, true, length, sym, ok-injective, [], truthy, ok, ◌∷◌, ◌≡◌, none, subst, some, arith,
  ◌<◌, List, refl,
}
use portable_batch_execution.Base.Exec.{reading, done, and_then}
use portable_batch_execution.Base.Sorting.{sorted}
use portable_batch_execution.Broker.Drive.{Turn}
use portable_batch_execution.Broker.Drive.Ended.{IsFair}
use portable_batch_execution.Broker.Drive.Rounds.{NamesExecutions}
use portable_batch_execution.Broker.Planning.{
  text_take, opaque_wave_id, opaque_run_id, canonical_operation_params, broker_shard_input_digest,
  broker_execution_fingerprint,
}
use portable_batch_execution.Broker.Register.{
  pack_of, new_bundle, found_wave, new_shard, new_wave, initial_manifest, asked_of, new_job,
}
use portable_batch_execution.Broker.Register.Call.{
  register_unless, register_raced, register_parts, register_new, look_up, in_registry, in_plane,
  in_artifacts, await_lock, register_broker_private_run,
}
use portable_batch_execution.Broker.Root.{BrokerRoot}
use portable_batch_execution.Broker.Service.{drive_to_terminal, Service}
use portable_batch_execution.Broker.Service.Within.{drive_to_terminal-in_budget}
use portable_batch_execution.Broker.StaticInputs.{validate_static_input_refs}
use portable_batch_execution.Contracts.Job.{job_closed}
use portable_batch_execution.Contracts.Shard.{validate_wave, validate_shard}
use portable_batch_execution.DataPlane.Artifacts.{write, validate_local_refs}
use portable_batch_execution.DataPlane.Manifests.{write_next_manifest}
use portable_batch_execution.Lifecycle.References.{lookup_field}
use portable_batch_execution.Names.{is_safe_component, safe_file_component}
use portable_batch_execution.Registry.{register_closed_wave, Bundle, resolve_wave}
use portable_batch_execution.Tests.Brokering.{runtime, runtime-IsRuntime, service, request, broker}
use portable_batch_execution.Tests.Registrations.{parts, registered}

abbrev execution : BackendExecutionRef
execution = record { backend_id = "github-actions"; execution_id = "17"; web_url = none }

abbrev backend : Backend
backend = record { submit_wave = λ wave. ok execution; get_run = λ e. ok "running" }

backend-NamesExecutions : NamesExecutions backend
backend-NamesExecutions wave e h =
    subst (λ x. truthy x.execution_id ≡ true) (ok-injective execution e h) refl

no_history :
    read_wave_dispatch_history runtime.str registered request.logical_run_id request.wave_id ≡ ok []
unfolding and_then asked_of await_lock canonical_operation_params dispatch_content done
    entry_history found_wave history_among in_artifacts in_plane in_registry initial_manifest
    is_safe_component job_closed look_up lookup_field new_bundle new_job new_shard new_wave
    no_dispatches opaque_run_id opaque_wave_id pack_of read_dispatch_state
    read_wave_dispatch_history reading register_broker_private_run register_closed_wave register_new
    register_parts register_raced register_unless resolve_wave safe_file_component sorted text_take
    validate_local_refs validate_shard validate_static_input_refs validate_wave wave_history
    waves_of write write_next_manifest
no_history = refl

dispatched_once :
    (dispatch_private_wave runtime.str
      (some backend)
      request.logical_run_id
      request.wave_id
      registered).0
    ≡ ok execution
unfolding and_then asked_of await_lock broker_execution_fingerprint broker_shard_input_digest
    canonical_operation_params dispatch_content dispatch_private_wave done entry_history
    find_execution found_wave in_artifacts in_plane in_registry initial_manifest is_safe_component
    job_closed look_up lookup_field merged_history new_bundle new_job new_shard new_wave
    no_dispatches opaque_run_id opaque_wave_id pack_of prepared_dispatch read_dispatch_state reading
    record_dispatch register_broker_private_run register_closed_wave register_new register_parts
    register_raced register_unless resolve_wave safe_file_component serialize_entry sorted text_take
    validate_local_refs validate_shard validate_static_input_refs validate_wave waves_of write
    write_next_manifest
dispatched_once = refl

dispatch_private_wave-IsDurable_example :
    IsDurable runtime.str registered
      (dispatch_private_wave runtime.str
        (some backend)
        request.logical_run_id
        request.wave_id
        registered).1
      request.logical_run_id
      request.wave_id
      execution
      []
dispatch_private_wave-IsDurable_example =
    dispatch_private_wave-IsDurable runtime runtime-IsRuntime (some backend) registered
      (dispatch_private_wave runtime.str (some backend) request.logical_run_id request.wave_id
        registered).1
      request.logical_run_id request.wave_id execution [] refl no_history
      (λ i. (
        dispatched_once i,
        (dispatch_private_wave runtime.str (some backend) request.logical_run_id request.wave_id
            registered).1,
      ))

four : 0 < 4
four = omega arith

abbrev pub turn : Turn
turn = record { backend = backend; others = λ root. root }

turn-IsFair : IsFair runtime runtime-IsRuntime request.logical_run_id request.wave_id 4 four turn
turn-IsFair = record { keeps_history = λ c. refl; names = backend-NamesExecutions }

abbrev pub one_turn : Service
one_turn = record service { turns = turn ∷ [] }

abbrev pub registered_broker : BrokerRoot
registered_broker = record broker { controller = registered }

resolves :
    resolve_wave registered.registry request.logical_run_id request.wave_id
    ≡ ok (record { job = parts.job; wave = parts.wave; shards = parts.shard ∷ [] })
unfolding and_then asked_of await_lock broker_execution_fingerprint broker_shard_input_digest
    canonical_operation_params done found_wave in_artifacts in_plane in_registry initial_manifest
    is_safe_component job_closed look_up new_bundle new_job new_shard new_wave opaque_run_id
    opaque_wave_id pack_of reading register_broker_private_run register_closed_wave register_new
    register_parts register_raced register_unless resolve_wave sorted text_take validate_local_refs
    validate_shard validate_static_input_refs validate_wave write write_next_manifest
resolves = refl

four_attempts :
    (b : Bundle)
    → resolve_wave registered.registry request.logical_run_id request.wave_id ≡ ok b
    → b.job.execution.max_attempts_per_shard ≡ 4
unfolding new_job
four_attempts b h =
    subst (λ x. x.job.execution.max_attempts_per_shard ≡ 4)
      (ok-injective (record { job = parts.job; wave = parts.wave; shards = parts.shard ∷ [] }) b
        (sym resolves ∙ h))
      refl

drive_to_terminal-in_budget_example :
    (later : List DispatchRecord) × (read_wave_dispatch_history runtime.str
        (drive_to_terminal one_turn "request" request registered_broker).1.controller
        request.logical_run_id
        request.wave_id
      ≡ ok later)
    × (length later ≤ 4)
drive_to_terminal-in_budget_example =
    drive_to_terminal-in_budget one_turn runtime-IsRuntime request 4 0 four "request"
      registered_broker [] refl (omega arith) (turn-IsFair, tt) four_attempts no_history
      (omega arith)
