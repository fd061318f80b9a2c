-- ===== src/Broker/Drive.antt =====
-- The loop of `UnixBrokerService._drive_to_terminal` in broker/service.py: one round of it, and the
-- loop over what the backend answers and others do in each round.
pub mod Decide
pub mod Reconcile
pub mod Rules
pub mod Stored
pub mod Agrees
pub mod Answers
pub mod Budget
pub mod Rounds
pub mod Loop
pub mod Ended
use portable_batch_execution.A1Controller.{
  dispatch_private_wave, reconcile_run, Backend, ControllerRoot,
}
use portable_batch_execution.A1Controller.History.{BackendExecutionRef}
use portable_batch_execution.A1Controller.Python.{Runtime}
use portable_batch_execution.Base.{
  backend_transport_error, backend_api_error, ◌&&◌, [], head?, ◌||◌, value_error, truthy, ◌>>=◌,
  ◌==◌, raise, leb, ◌∷◌, if◌then◌else◌, ok, none, false, length, List, Bool, some, Outcome, not, ℕ,
  String, Option,
}
use portable_batch_execution.Base.Decimal.{after}
use portable_batch_execution.Base.Exec.{fail, reading, done, and_then, try_then, Exec}
use portable_batch_execution.Base.Int.{succ_ℤ, eq_ℤ, pos, ltb_ℤ, ℤ}
use portable_batch_execution.Broker.Attempts.{
  matching_attempts, matching_terminal_attempts, attempt_marker,
}
use portable_batch_execution.Broker.Drive.Decide.{dispatch, exhaust, wait, Decision, decide}
use portable_batch_execution.Broker.Drive.Reconcile.{reconcile_if_changed}
use portable_batch_execution.Broker.Responses.{
  succeeded_response, failed_response, exhausted_response, AttemptOutput, BrokerExecuteResponse,
}
use portable_batch_execution.Broker.Root.{save_request, in_controller, BrokerRoot}
use portable_batch_execution.Contracts.Artifact.{ArtifactRef}
use portable_batch_execution.Contracts.Attempt.{is_empty, ShardAttemptRecord}
use portable_batch_execution.Contracts.Manifest.{RunManifest}
use portable_batch_execution.Contracts.Shard.{ExecutionPolicy, ShardSpec}
use portable_batch_execution.DataPlane.Artifacts.{read}
use portable_batch_execution.DataPlane.Attempts.{read_attempts}
use portable_batch_execution.DataPlane.Host.{Bytes}
use portable_batch_execution.DataPlane.Manifests.{read_manifest}
use portable_batch_execution.Kernel.Completeness.{completeness, is_complete, Completeness}
use portable_batch_execution.Kernel.Retry.{exhausted_shards}
use portable_batch_execution.Lifecycle.Records.{BrokerRequestState}
use portable_batch_execution.Registry.{load_shards_for_run}

-- What the loop is given: the request's identifier, the shard and the job's policy.
pub record Driven : Type 0 where
  pub request_id : String
  pub shard : ShardSpec
  pub policy : ExecutionPolicy

-- A round ends with an answer, or the loop goes on with the state.
pub data Turned : Type 0 where
  answered : BrokerExecuteResponse → Turned
  again : BrokerRequestState → Turned

-- `state.status = "exhausted"` and its like, saved
pub save_and_answer : BrokerRequestState → BrokerExecuteResponse → Exec BrokerRoot Turned
save_and_answer s answer = and_then (save_request s) λ _. done (answered answer)

pub exhaust_request : BrokerRequestState → Exec BrokerRoot Turned
unfolding save_and_answer
exhaust_request s =
    let s' = record s { status = "exhausted" } in save_and_answer s' (exhausted_response s')

-- `canonical and not missing and not duplicate`, with `canonical[0]`
unfoldable pub head_if_complete : Completeness → Option ShardAttemptRecord
head_if_complete c = if is_complete c then head? c.canonical else none

abbrev media_type_of : Option String → String
media_type_of none = "application/octet-stream"
media_type_of (some t) = if truthy t then t else "application/octet-stream"

abbrev size_of : Option ℕ → Bytes → ℤ
size_of none payload = pos (length payload)
size_of (some n) payload = pos n

-- The handler of the dispatch: what is kept of it in the state, or the answer to its error.
pub dispatched :
    Driven → ℕ → BrokerRequestState → Outcome BackendExecutionRef → Exec BrokerRoot Turned
dispatched d terminal_count s (ok e) =
    let s' = record s {
      execution_id = some e.execution_id;
      last_dispatched_failure_count = pos terminal_count;
      dispatch_count = succ_ℤ s.dispatch_count;
    } in
    and_then (save_request s') λ _. done (again s')
dispatched d terminal_count s (raise backend_api_error) =
    done (answered (failed_response d.request_id "backend_transient"))
dispatched d terminal_count s (raise backend_transport_error) =
    done (answered (failed_response d.request_id "backend_transient"))
dispatched d terminal_count s (raise (value_error _)) =
    done (answered (failed_response d.request_id "dispatch_failed"))
dispatched d terminal_count s (raise e) = fail e

-- `_backend_status`
pub backend_status : Option Backend → BrokerRequestState → Outcome (Option String)
backend_status none s = ok none
backend_status (some b) s = elim s.execution_id [
  | none ↦ ok none
  | some i ↦
      b.get_run (record { backend_id = "github-actions"; execution_id = i; web_url = none })
      >>= λ status. ok (some status)
]

module _ (r : Runtime) where
  -- `_read_attempt_output`
  unfoldable pub output_at : BrokerRoot → List ArtifactRef → Outcome AttemptOutput
  output_at root [] = raise (value_error "successful attempt missing output")
  output_at root (ref ∷ refs) = read r.host root.controller.plane.artifacts ref >>= λ payload.
      ok (record {
        payload = payload;
        media_type = media_type_of ref.media_type;
        digest = after "sha256:" (r.host.hexdigest payload);
        size_bytes = size_of ref.size_bytes payload;
      })

  -- The request's state once its output is known.
  abbrev pub with_output : BrokerRequestState → AttemptOutput → BrokerRequestState
  with_output s o = record s {
    status = "succeeded";
    output_sha256 = some o.digest;
    output_size_bytes = some o.size_bytes;
    output_media_type = some o.media_type;
  }

  unfoldable pub succeed_request :
      Driven
      → List ShardAttemptRecord
      → BrokerRequestState
      → ShardAttemptRecord
      → Exec BrokerRoot Turned
  succeed_request d attempts s attempt =
      and_then (reading λ root. output_at root attempt.output_refs) λ o.
        and_then (save_request (with_output s o)) λ _.
          and_then (reconcile_if_changed r d.shard attempts (with_output s o))
            λ s'. done (answered (succeeded_response r s' o))

  pub dispatch_request : Driven → Option Backend → ℕ → BrokerRequestState → Exec BrokerRoot Turned
  dispatch_request d backend terminal_count s =
      try_then (in_controller (dispatch_private_wave r.str backend s.logical_run_id s.wave_id))
        (dispatched d terminal_count s)

  pub carry_out :
      Driven → Option Backend → ℕ → BrokerRequestState → Decision → Exec BrokerRoot Turned
  carry_out d backend terminal_count s wait = done (again s)
  carry_out d backend terminal_count s exhaust = exhaust_request s
  carry_out d backend terminal_count s dispatch = dispatch_request d backend terminal_count s

  -- From the query of the backend to the end of the round.
  pub after_status :
      Driven
      → Option Backend
      → ℕ
      → BrokerRequestState
      → Outcome (Option String)
      → Exec BrokerRoot Turned
  after_status d backend terminal_count s (ok status) =
      carry_out d backend terminal_count s
        (decide s terminal_count d.policy.max_attempts_per_shard status)
  after_status d backend terminal_count s (raise backend_api_error) =
      done (answered (failed_response d.request_id "backend_transient"))
  after_status d backend terminal_count s (raise backend_transport_error) =
      done (answered (failed_response d.request_id "backend_transient"))
  after_status d backend terminal_count s (raise e) = fail e

  -- From `completeness` on, for the attempt that it settles on.
  unfoldable pub settle :
      Driven
      → Option Backend
      → List ShardAttemptRecord
      → BrokerRequestState
      → Option ShardAttemptRecord
      → Exec BrokerRoot Turned
  settle d backend attempts s (some attempt) = succeed_request d attempts s attempt
  settle d backend attempts s none =
      after_status d backend (length (matching_terminal_attempts d.shard attempts)) s
        (backend_status backend s)

  -- The round for the attempts and the state after their reconciliation.
  unfoldable pub judge_attempts :
      Driven
      → Option Backend
      → List ShardAttemptRecord
      → BrokerRequestState
      → Exec BrokerRoot Turned
  judge_attempts d backend attempts s =
      if leb d.policy.max_attempts_per_shard (length (matching_terminal_attempts d.shard attempts))
      then exhaust_request s
      else if not (is_empty (exhausted_shards (d.shard ∷ []) attempts d.policy))
      then exhaust_request s
      else and_then (reading λ _. completeness (d.shard.shard_id ∷ []) attempts (d.shard ∷ []))
          λ c. settle d backend attempts s (head_if_complete c)

  -- One round of the loop.
  unfoldable pub one_round : Driven → Option Backend → BrokerRequestState → Exec BrokerRoot Turned
  one_round d backend s =
      and_then (reading λ root. read_attempts root.controller.plane s.logical_run_id) λ attempts.
        and_then (reconcile_if_changed r d.shard attempts s)
          λ s'. judge_attempts d backend attempts s'

-- What a round meets: the backend's answers, and what others did to the controller's state before.
pub record Turn : Type 0 where
  pub backend : Backend
  pub others : ControllerRoot → ControllerRoot

unfoldable pub others_act : (ControllerRoot → ControllerRoot) → Exec BrokerRoot (Unit {0})
others_act others root = (ok tt, record root { controller = others root.controller })

pub go_on :
    (BrokerRequestState → Exec BrokerRoot (Option BrokerExecuteResponse))
    → Turned
    → Exec BrokerRoot (Option BrokerExecuteResponse)
go_on next (answered answer) = done (some answer)
go_on next (again s) = next s

-- The loop over the turns given; `none` where they are over and it would go on.
unfoldable pub drive_loop :
    Runtime
    → Driven
    → List Turn
    → BrokerRequestState
    → Exec BrokerRoot (Option BrokerExecuteResponse)
unfolding go_on
drive_loop r d [] s = done none
drive_loop r d (t ∷ ts) s =
    and_then (others_act t.others)
      λ _. and_then (one_round r d (some t.backend) s) λ turned. go_on (drive_loop r d ts) turned
