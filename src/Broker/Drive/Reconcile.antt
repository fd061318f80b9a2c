-- ===== src/Broker/Drive/Reconcile.antt =====
-- `_reconcile_if_attempts_changed` of broker/service.py.
use portable_batch_execution.A1Controller.{reconcile_run}
use portable_batch_execution.A1Controller.Python.{Runtime}
use portable_batch_execution.Base.{
  [], if◌then◌else◌, ◌==◌, ◌∷◌, false, some, none, Option, List, Bool, String,
}
use portable_batch_execution.Base.Exec.{reading, and_then, done, Exec}
use portable_batch_execution.Broker.Attempts.{matching_attempts, attempt_marker}
use portable_batch_execution.Broker.Root.{save_request, in_controller, BrokerRoot}
use portable_batch_execution.Contracts.Attempt.{is_empty, ShardAttemptRecord}
use portable_batch_execution.Contracts.Manifest.{RunManifest}
use portable_batch_execution.Contracts.Shard.{ShardSpec}
use portable_batch_execution.DataPlane.Manifests.{read_manifest}
use portable_batch_execution.Lifecycle.Records.{BrokerRequestState}
use portable_batch_execution.Registry.{load_shards_for_run}

-- `state.last_reconciled_attempt_marker = marker`, saved
unfoldable pub save_marker : BrokerRequestState → String → Exec BrokerRoot BrokerRequestState
save_marker s marker =
    let s' = record s { last_reconciled_attempt_marker = some marker } in
    and_then (save_request s') λ _. done s'

abbrev pub is_marked : BrokerRequestState → String → Bool
is_marked s marker = elim s.last_reconciled_attempt_marker [ none ↦ false | some m ↦ marker == m ]

module _ (r : Runtime) where
  -- The rest of `_reconcile_if_attempts_changed`, for the shards that are loaded.
  unfoldable pub reconcile_shards :
      BrokerRequestState → String → List ShardSpec → Exec BrokerRoot BrokerRequestState
  reconcile_shards s marker [] = done s
  reconcile_shards s marker (shard ∷ shards) =
      and_then (in_controller (reconcile_run r s.logical_run_id)) λ _. save_marker s marker

  unfoldable pub reconcile_manifest :
      BrokerRequestState → String → Option RunManifest → Exec BrokerRoot BrokerRequestState
  reconcile_manifest s marker none = done s
  reconcile_manifest s marker (some m) =
      and_then (reading λ root. load_shards_for_run root.controller.registry s.logical_run_id)
        λ shards. reconcile_shards s marker shards

  -- `_reconcile_if_attempts_changed`
  unfoldable pub reconcile_if_changed :
      ShardSpec → List ShardAttemptRecord → BrokerRequestState → Exec BrokerRoot BrokerRequestState
  unfolding reconcile_manifest
  reconcile_if_changed shard attempts s =
      let marker = attempt_marker r shard attempts in
      if is_marked s marker
      then done s
      else if is_empty (matching_attempts shard attempts)
      then save_marker s marker
      else and_then (reading λ root. read_manifest root.controller.plane s.logical_run_id)
          λ manifest. reconcile_manifest s marker manifest
