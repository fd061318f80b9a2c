-- ===== src/Broker/Drive/Rules.antt =====
-- Rules for the parts of a round, for anything that is said of the state in hand and the files.
use portable_batch_execution.A1Controller.{reconcile_run, Backend}
use portable_batch_execution.A1Controller.Python.{Runtime}
use portable_batch_execution.Base.{
  lock_error, lock_timeout, index_error, file_not_found, overflow_error, attribute_error,
  type_error, leb, backend_transport_error, backend_api_error, revision_conflict, not, key_error,
  ok, runtime_error, value_error, Outcome, raise, if◌then◌else◌, length, none, Error, [], ◌∷◌, some,
  List, ℕ, String, Option,
}
use portable_batch_execution.Base.Exec.{fail, and_then, reading, Exec, done}
use portable_batch_execution.Base.Triples.{
  if-Triple, reading-Triple, and_then-Triple, done-Triple, Triple,
}
use portable_batch_execution.Broker.Attempts.{
  matching_attempts, matching_terminal_attempts, attempt_marker,
}
use portable_batch_execution.Broker.Drive.{
  head_if_complete, backend_status, dispatched, carry_out, after_status, succeed_request,
  exhaust_request, settle, answered, judge_attempts, Turned, Driven,
}
use portable_batch_execution.Broker.Drive.Decide.{decide}
use portable_batch_execution.Broker.Drive.Reconcile.{
  is_marked, reconcile_manifest, reconcile_shards, save_marker, reconcile_if_changed,
}
use portable_batch_execution.Broker.Responses.{failed_response}
use portable_batch_execution.Broker.Root.{in_controller, save_request, BrokerRoot}
use portable_batch_execution.Contracts.Attempt.{is_empty, ShardAttemptRecord}
use portable_batch_execution.Contracts.Manifest.{RunManifest}
use portable_batch_execution.Contracts.Shard.{ShardSpec}
use portable_batch_execution.DataPlane.Manifests.{read_manifest}
use portable_batch_execution.Kernel.Completeness.{completeness}
use portable_batch_execution.Kernel.Retry.{exhausted_shards}
use portable_batch_execution.Lifecycle.Records.{BrokerRequestState}
use portable_batch_execution.Registry.{load_shards_for_run}

-- What a marker, or a reconciliation of the run, does not change.
pub record KeepsMarks (r : Runtime) (R : BrokerRoot → Type 0)
    (P : BrokerRequestState → BrokerRoot → Type 0) : Type 0 where
  pub lower : (s : BrokerRequestState) (root : BrokerRoot) → P s root → R root
  pub marks :
      (s : BrokerRequestState) (marker : String)
      → Triple
          (P s)
          (save_request (record s { last_reconciled_attempt_marker = some marker }))
          (λ _. P (record s { last_reconciled_attempt_marker = some marker }))
          R
  pub runs :
      (s : BrokerRequestState) (run : String)
      → Triple (P s) (in_controller (reconcile_run r run)) (λ _. P s) R

module _ (r : Runtime) (R : BrokerRoot → Type 0) (P : BrokerRequestState → BrokerRoot → Type 0)
    (k : KeepsMarks r R P) where
  save_marker-Triple :
      (s : BrokerRequestState) (marker : String) → Triple (P s) (save_marker s marker) P R
  unfolding save_marker
  save_marker-Triple s marker =
      let s' = record s { last_reconciled_attempt_marker = some marker } in
      and_then-Triple (λ _. P s') P (save_request s') (λ _. done s') (k.marks s marker)
        λ _. done-Triple P s' λ root h. h

  reconcile_shards-Triple :
      (s : BrokerRequestState) (marker : String) (shards : List ShardSpec)
      → Triple (P s) (reconcile_shards r s marker shards) P R
  unfolding reconcile_shards
  reconcile_shards-Triple s marker [] = done-Triple P s λ root h. h
  reconcile_shards-Triple s marker (shard ∷ shards) =
      and_then-Triple (λ _. P s) P (in_controller (reconcile_run r s.logical_run_id))
        (λ _. save_marker s marker) (k.runs s s.logical_run_id) λ _. save_marker-Triple s marker

  reconcile_manifest-Triple :
      (s : BrokerRequestState) (marker : String) (m : Option RunManifest)
      → Triple (P s) (reconcile_manifest r s marker m) P R
  unfolding reconcile_manifest
  reconcile_manifest-Triple s marker none = done-Triple P s λ root h. h
  reconcile_manifest-Triple s marker (some m) =
      and_then-Triple (λ _. P s) P
        (reading λ root. load_shards_for_run root.controller.registry s.logical_run_id) _
        (reading-Triple (λ _. P s) _ (λ root _ h _. h) (k.lower s))
        λ shards. reconcile_shards-Triple s marker shards

  pub reconcile_if_changed-Triple :
      (shard : ShardSpec) (attempts : List ShardAttemptRecord) (s : BrokerRequestState)
      → Triple (P s) (reconcile_if_changed r shard attempts s) P R
  unfolding reconcile_if_changed
  reconcile_if_changed-Triple shard attempts s =
      let marker = attempt_marker r shard attempts in
      let last : Exec BrokerRoot BrokerRequestState =
        and_then (reading λ root. read_manifest root.controller.plane s.logical_run_id)
          λ manifest. reconcile_manifest r s marker manifest in
      if-Triple P (is_marked s marker) (done s)
        (if is_empty (matching_attempts shard attempts) then save_marker s marker else last)
        (λ _. done-Triple P s λ root h. h)
        λ _.
          if-Triple P (is_empty (matching_attempts shard attempts)) (save_marker s marker) last
            (λ _. save_marker-Triple s marker)
            λ _.
              and_then-Triple (λ _. P s) P
                (reading λ root. read_manifest root.controller.plane s.logical_run_id)
                (λ manifest. reconcile_manifest r s marker manifest)
                (reading-Triple (λ _. P s)
                  (λ root. read_manifest root.controller.plane s.logical_run_id) (λ root _ h _. h)
                  (k.lower s))
                λ manifest. reconcile_manifest-Triple s marker manifest

module _ (r : Runtime) (d : Driven) (backend : Option Backend) (terminal_count : ℕ)
    (s : BrokerRequestState) (P R : BrokerRoot → Type 0) (Q : Turned → BrokerRoot → Type 0)
    (answers : (code : String) → Triple P (done (answered (failed_response d.request_id code))) Q R)
    (fails : (e : Error) → Triple P (fail e) Q R) where
  -- The answer to an error of the dispatch.
  pub dispatched_raise-Triple : (e : Error) → Triple P (dispatched d terminal_count s (raise e)) Q R
  unfolding dispatched
  dispatched_raise-Triple backend_api_error = answers _
  dispatched_raise-Triple backend_transport_error = answers _
  dispatched_raise-Triple (value_error why) = answers _
  dispatched_raise-Triple (runtime_error why) = fails _
  dispatched_raise-Triple (key_error why) = fails _
  dispatched_raise-Triple (revision_conflict why) = fails _
  dispatched_raise-Triple type_error = fails _
  dispatched_raise-Triple attribute_error = fails _
  dispatched_raise-Triple overflow_error = fails _
  dispatched_raise-Triple file_not_found = fails _
  dispatched_raise-Triple index_error = fails _
  dispatched_raise-Triple lock_timeout = fails _
  dispatched_raise-Triple lock_error = fails _

  pub after_status-Triple :
      ((status : Option String)
        → Triple P
            (carry_out r d backend terminal_count s
              (decide s terminal_count d.policy.max_attempts_per_shard status))
            Q
            R)
      → (status : Outcome (Option String))
      → Triple P (after_status r d backend terminal_count s status) Q R
  unfolding after_status
  after_status-Triple carries (ok status) = carries status
  after_status-Triple carries (raise backend_api_error) = answers _
  after_status-Triple carries (raise backend_transport_error) = answers _
  after_status-Triple carries (raise (value_error why)) = fails _
  after_status-Triple carries (raise (runtime_error why)) = fails _
  after_status-Triple carries (raise (key_error why)) = fails _
  after_status-Triple carries (raise (revision_conflict why)) = fails _
  after_status-Triple carries (raise type_error) = fails _
  after_status-Triple carries (raise attribute_error) = fails _
  after_status-Triple carries (raise overflow_error) = fails _
  after_status-Triple carries (raise file_not_found) = fails _
  after_status-Triple carries (raise index_error) = fails _
  after_status-Triple carries (raise lock_timeout) = fails _
  after_status-Triple carries (raise lock_error) = fails _

module _ (r : Runtime) (d : Driven) (backend : Option Backend) (attempts : List ShardAttemptRecord)
    (s : BrokerRequestState) (P R : BrokerRoot → Type 0) (Q : Turned → BrokerRoot → Type 0)
    (lower : (root : BrokerRoot) → P root → R root) where
  -- The three ends of a round.
  pub judge_attempts-Triple :
      Triple P (exhaust_request s) Q R
      → ((attempt : ShardAttemptRecord) → Triple P (succeed_request r d attempts s attempt) Q R)
      → Triple P
          (after_status r d backend
            (length (matching_terminal_attempts d.shard attempts))
            s
            (backend_status backend s))
          Q
          R
      → Triple P (judge_attempts r d backend attempts s) Q R
  unfolding judge_attempts settle
  judge_attempts-Triple exhausts succeeds asks =
      let judged : Exec BrokerRoot Turned =
        and_then (reading λ _. completeness (d.shard.shard_id ∷ []) attempts (d.shard ∷ []))
          λ found. settle r d backend attempts s (head_if_complete found) in
      let spent = not (is_empty (exhausted_shards (d.shard ∷ []) attempts d.policy)) in
      if-Triple Q
        (leb d.policy.max_attempts_per_shard (length (matching_terminal_attempts d.shard attempts)))
        (exhaust_request s) (if spent then exhaust_request s else judged) (λ _. exhausts)
        λ _.
          if-Triple Q spent (exhaust_request s) judged (λ _. exhausts)
            λ _.
              and_then-Triple (λ _. P) Q
                (reading λ _. completeness (d.shard.shard_id ∷ []) attempts (d.shard ∷ []))
                (λ found. settle r d backend attempts s (head_if_complete found))
                (reading-Triple (λ _. P) _ (λ root _ h _. h) lower)
                λ found. settles (head_if_complete found)
    where
      settles :
          (found : Option ShardAttemptRecord) → Triple P (settle r d backend attempts s found) Q R
      settles (some attempt) = succeeds attempt
      settles none = asks
