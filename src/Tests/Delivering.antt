-- ===== src/Tests/Delivering.antt =====
-- The theorems on the drive of one request to its answer and on what follows it.
use portable_batch_execution.A1Controller.{
  waves_of, wave_history, read_wave_dispatch_history, read_dispatch_state, no_dispatches,
  history_among, dispatch_content, ControllerRoot,
}
use portable_batch_execution.A1Controller.History.{entry_history}
use portable_batch_execution.Base.{ok, none, some, [], ◌∷◌, ◌≡◌, refl}
use portable_batch_execution.Base.Dict.{get}
use portable_batch_execution.Base.Exec.{done, reading, and_then}
use portable_batch_execution.Base.Int.{pos}
use portable_batch_execution.Base.Triples.{Ends}
use portable_batch_execution.Broker.Attempts.{matching_terminal_attempts, attempt_marker}
use portable_batch_execution.Broker.Config.{authorize}
use portable_batch_execution.Broker.Deliveries.{handle_delivery_commit, delivery_of}
use portable_batch_execution.Broker.Deliveries.Delivered.{drive_to_terminal-delivers}
use portable_batch_execution.Broker.Drive.{
  output_at, succeed_request, head_if_complete, settle, judge_attempts, one_round, others_act,
  drive_loop,
}
use portable_batch_execution.Broker.Drive.Reconcile.{reconcile_if_changed}
use portable_batch_execution.Broker.Drive.Stored.{Left, Replied}
use portable_batch_execution.Broker.Handle.{handle_payload}
use portable_batch_execution.Broker.Handle.Ended.{handle_payload-stays_ended}
use portable_batch_execution.Broker.Handle.Finished.{Remains}
use portable_batch_execution.Broker.Planning.{
  broker_shard_input_digest, broker_execution_fingerprint, text_take, opaque_wave_id, opaque_run_id,
  canonical_operation_params,
}
use portable_batch_execution.Broker.Register.{
  initial_manifest, pack_of, new_wave, new_shard, new_job, new_bundle, found_wave, asked_of,
}
use portable_batch_execution.Broker.Register.Call.{
  register_parts, register_new, in_registry, in_plane, in_artifacts, register_unless,
  register_raced, register_broker_private_run, look_up, await_lock,
}
use portable_batch_execution.Broker.Responses.{accepted, BrokerExecuteResponse, succeeded_response}
use portable_batch_execution.Broker.Root.{save_request, opaque_request_id, BrokerRoot}
use portable_batch_execution.Broker.Service.{
  sync_history, sync_dispatch, drive_to_terminal, Service,
}
use portable_batch_execution.Broker.Service.Answered.{drive_to_terminal-agrees}
use portable_batch_execution.Broker.StaticInputs.{validate_static_input_refs}
use portable_batch_execution.Contracts.Attempt.{AttemptStatus, ShardAttemptRecord}
use portable_batch_execution.Contracts.Job.{job_closed}
use portable_batch_execution.Contracts.Shard.{validate_wave}
use portable_batch_execution.DataPlane.Artifacts.{read, write, validate_local_refs}
use portable_batch_execution.DataPlane.Attempts.{read_attempts, run_of, put_run}
use portable_batch_execution.DataPlane.Manifests.{read_manifest, write_next_manifest}
use portable_batch_execution.Kernel.Completeness.{completeness}
use portable_batch_execution.Kernel.Retry.{exhausted_shards}
use portable_batch_execution.Lifecycle.Records.{BrokerRequestState}
use portable_batch_execution.Lifecycle.References.{lookup_field}
use portable_batch_execution.Lifecycle.Root.{holding}
use portable_batch_execution.Names.{is_safe_component}
use portable_batch_execution.Registry.{register_closed_wave, resolve_wave, load_shards_for_run}
use portable_batch_execution.Tests.{noon, hex_digits}
use portable_batch_execution.Tests.Brokering.{
  runtime, config, service, asks, request, commit, succeeded_request, done_broker,
}
use portable_batch_execution.Tests.Driving.{registered_broker, one_turn, turn}
use portable_batch_execution.Tests.Registrations.{registered_run, input_ref}

drive_to_terminal-agrees_example :
    Ends
      (Replied runtime "request" request)
      (Left request)
      (drive_to_terminal one_turn "request" request registered_broker)
drive_to_terminal-agrees_example =
    drive_to_terminal-agrees one_turn request "request" registered_broker refl

handle_payload-stays_ended_example :
    Remains succeeded_request done_broker.controller.dispatch
      (handle_payload service (pos 1000) "request" (ok asks) done_broker).1
handle_payload-stays_ended_example =
    handle_payload-stays_ended service succeeded_request done_broker (pos 1000) "request" asks refl
      refl refl

-- A worker has run the request's shard; its output is the input.
abbrev attempt : ShardAttemptRecord
attempt = record {
  logical_run_id = "run-0123456789abcdef";
  shard_id = "shard-000000";
  attempt_id = "attempt";
  status = AttemptStatus.succeeded;
  input_digest = hex_digits;
  execution_fingerprint = hex_digits;
  started_at = noon;
  finished_at = noon;
  wave_id = none;
  output_refs = input_ref ∷ [];
  output_digest = some hex_digits;
  counts = [];
  failure = none;
  backend_execution_id = none;
  backend_job_id = none;
}

abbrev worker : ControllerRoot → ControllerRoot
worker c = record c {
  plane =
      put_run c.plane attempt.logical_run_id
        (record (run_of c.plane attempt.logical_run_id) { attempts = ("attempt", attempt) ∷ [] });
}

abbrev worked_turn : Service
worked_turn = record service { turns = record turn { others = worker } ∷ [] }

abbrev marked_request : BrokerRequestState
marked_request = record request { last_reconciled_attempt_marker = some hex_digits }

abbrev marked_broker : BrokerRoot
marked_broker = record registered_broker {
  requests = ("request", holding marked_request) ∷ [];
  deliveries = [];
}

abbrev answer : BrokerExecuteResponse
answer = succeeded_response runtime marked_request (record {
  payload = 1 ∷ 2 ∷ 3 ∷ [];
  media_type = "text/csv";
  digest = "sha256:0123456789abcdef0123456789abcdef0123456789abcdef0123456789abcdef";
  size_bytes = pos 3;
})

abbrev after_drive : BrokerRoot
after_drive = (drive_to_terminal worked_turn "request" marked_request marked_broker).1

-- The drive, the manifest that can be read after it, and that no delivery is on file.
drives :
    (drive_to_terminal worked_turn "request" marked_request marked_broker
      ≡ (ok (some answer), after_drive))
    × (read_manifest after_drive.controller.plane marked_request.logical_run_id
        ≡ ok (some registered_run.manifest))
    × (get after_drive.deliveries commit.request_id ≡ none)
unfolding and_then asked_of attempt_marker await_lock broker_execution_fingerprint
    broker_shard_input_digest canonical_operation_params completeness dispatch_content done
    drive_loop drive_to_terminal entry_history exhausted_shards found_wave head_if_complete
    history_among in_artifacts in_plane in_registry initial_manifest is_safe_component job_closed
    judge_attempts load_shards_for_run look_up lookup_field matching_terminal_attempts new_bundle
    new_job new_shard new_wave no_dispatches one_round opaque_request_id opaque_run_id
    opaque_wave_id others_act output_at pack_of read read_attempts read_dispatch_state read_manifest
    read_wave_dispatch_history reading reconcile_if_changed register_broker_private_run
    register_closed_wave register_new register_parts register_raced register_unless resolve_wave
    save_request settle succeed_request succeeded_response sync_dispatch sync_history text_take
    validate_local_refs validate_static_input_refs validate_wave wave_history waves_of write
    write_next_manifest
drives = (refl, refl, refl)

drive_to_terminal-delivers_example :
    (later : BrokerRoot) × (handle_delivery_commit runtime config
        (ok tt)
        (pos 1000)
        noon
        commit
        after_drive
      ≡ (ok (record { request_id = commit.request_id; status = accepted }), later))
    × (get later.deliveries commit.request_id
        ≡ some (
            holding (
              delivery_of runtime
                (pos 1000)
                noon
                commit
                marked_request
                (some registered_run.manifest))))
unfolding opaque_request_id authorize is_safe_component succeeded_response
drive_to_terminal-delivers_example =
    drive_to_terminal-delivers worked_turn marked_request "request" marked_broker after_drive answer
      (pos 1000) noon commit (some registered_run.manifest) refl drives.0 refl refl refl refl refl
      refl drives.1 drives.2
