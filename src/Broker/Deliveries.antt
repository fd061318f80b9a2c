-- ===== src/Broker/Deliveries.antt =====
-- `handle_delivery_commit` of broker/service.py, with `DeliveryRecordStore.save_new` of
-- lifecycle/delivery.py.
pub mod Commits
pub mod Delivered
pub mod Transport
pub mod Accepted
use portable_batch_execution.A1Controller.Python.{Runtime}
use portable_batch_execution.Base.{
  attribute_error, value_error, raise, ◌>>=◌, false, true, none, not, ◌&&◌, ok, ◌==◌, if◌then◌else◌,
  some, Bool, Outcome, String, Option,
}
use portable_batch_execution.Base.Dict.{put, get}
use portable_batch_execution.Base.Exec.{try_then, reading, fail, done, and_then, Exec}
use portable_batch_execution.Base.Int.{eq_ℤ, ℤ}
use portable_batch_execution.Broker.Config.{authorize, BrokerConfig}
use portable_batch_execution.Broker.Responses.{accepted, refused, BrokerDeliveryCommitResponse}
use portable_batch_execution.Broker.Root.{load_request, opaque_request_id, BrokerRoot}
use portable_batch_execution.Contracts.Datetime.{isoformat, Datetime}
use portable_batch_execution.Contracts.Job.{closed_brace, text, field, dict, null, Param}
use portable_batch_execution.Contracts.Json.{truthy_param}
use portable_batch_execution.Contracts.Manifest.{RunManifest}
use portable_batch_execution.DataPlane.Attempts.{text_option_eq}
use portable_batch_execution.DataPlane.Manifests.{read_manifest}
use portable_batch_execution.Lifecycle.Deletion.{same_param}
use portable_batch_execution.Lifecycle.Records.{BrokerRequestState, DeliveryRecord}
use portable_batch_execution.Lifecycle.Root.{unreadable, not_object, holding, Stored}

-- `BrokerDeliveryCommitRequest`
pub record BrokerDeliveryCommitRequest : Type 0 where
  pub request_id : String
  pub output_sha256 : String
  pub output_size_bytes : ℤ

abbrev pub stamp : Option Datetime → Option String
stamp none = none
stamp (some d) = some (isoformat d)

-- `manifest.provenance.created_at`, where there is a manifest
abbrev pub created_of : Option RunManifest → Option Datetime
created_of none = none
created_of (some m) = some m.provenance.created_at

module _ (r : Runtime) where
  abbrev pub provenance_text : Param → Option String
  provenance_text p = if truthy_param p then some (r.dumps_spaced p) else none

  -- `_transport_identity(existing) == _transport_identity(record)`: all but the time of delivery
  pub same_transport : DeliveryRecord → DeliveryRecord → Bool
  same_transport a b =
      (a.request_id == b.request_id)
      && (a.logical_run_id == b.logical_run_id)
      && (a.artifact_digest == b.artifact_digest)
      && eq_ℤ a.artifact_size_bytes b.artifact_size_bytes
      && same_param a.producer_uid b.producer_uid
      && eq_ℤ a.consumer_uid b.consumer_uid
      && text_option_eq (stamp a.created_at) (stamp b.created_at)
      && text_option_eq (provenance_text a.provenance) (provenance_text b.provenance)

  -- `save_new`, for what is in the file: whether the file is written
  unfoldable pub may_save : DeliveryRecord → Option (Stored DeliveryRecord) → Outcome Bool
  may_save d none = ok true
  may_save d (some (holding existing)) =
      if same_transport existing d then ok false else raise (value_error "delivery_commit_conflict")
  may_save d (some not_object) = raise attribute_error
  may_save d (some unreadable) = raise (value_error "unreadable record")

  -- What was found, or the lock not being free, decides.
  unfoldable pub save_checks : Outcome (Unit {0}) → DeliveryRecord → BrokerRoot → Outcome Bool
  save_checks lock d root =
      opaque_request_id d.request_id >>= λ name. lock >>= λ _. may_save d (get root.deliveries name)

  -- The file is written, or there is no need to.
  unfoldable pub save_after : Outcome Bool → DeliveryRecord → Exec BrokerRoot (Unit {0})
  save_after (raise e) d root = (raise e, root)
  save_after (ok false) d root = (ok tt, root)
  save_after (ok true) d root =
      (ok tt, record root { deliveries = put root.deliveries d.request_id (holding d) })

  -- Given how the wait for the lifecycle lock ends.
  unfoldable pub save_new : Outcome (Unit {0}) → DeliveryRecord → Exec BrokerRoot (Unit {0})
  save_new lock d root = save_after (save_checks lock d root) d root

  abbrev pub refuse : BrokerDeliveryCommitRequest → String → BrokerDeliveryCommitResponse
  refuse commit code = record { request_id = commit.request_id; status = refused code }

  -- The record of a delivery.
  unfoldable pub delivery_of :
      ℤ
      → Datetime
      → BrokerDeliveryCommitRequest
      → BrokerRequestState
      → Option RunManifest
      → DeliveryRecord
  delivery_of peer_uid now commit s manifest = record {
    request_id = commit.request_id;
    logical_run_id = s.logical_run_id;
    artifact_digest = commit.output_sha256;
    artifact_size_bytes = commit.output_size_bytes;
    producer_uid = null;
    consumer_uid = peer_uid;
    created_at = created_of manifest;
    delivered_at = now;
    provenance = dict (
        field "pack" (text s.binding.pack)
          (field "operation" (text s.binding.operation) closed_brace));
  }

  pub on_saved :
      BrokerDeliveryCommitRequest
      → Outcome (Unit {0})
      → Exec BrokerRoot BrokerDeliveryCommitResponse
  on_saved commit (ok _) = done (record { request_id = commit.request_id; status = accepted })
  on_saved commit (raise (value_error _)) = done (refuse commit "delivery_commit_conflict")
  on_saved commit (raise e) = fail e

  -- `state.output_sha256 != commit.output_sha256 or ...`
  unfoldable pub output_matches : BrokerRequestState → BrokerDeliveryCommitRequest → Bool
  output_matches s commit =
      text_option_eq s.output_sha256 (some commit.output_sha256)
      && elim s.output_size_bytes [ none ↦ false | some n ↦ eq_ℤ n commit.output_size_bytes ]

  unfoldable pub commit_of :
      BrokerConfig
      → Outcome (Unit {0})
      → ℤ
      → Datetime
      → BrokerDeliveryCommitRequest
      → BrokerRequestState
      → Exec BrokerRoot BrokerDeliveryCommitResponse
  unfolding on_saved
  commit_of config lock peer_uid now commit s =
      if not (s.status == "succeeded")
      then done (refuse commit "delivery_commit_not_ready")
      else if not (output_matches s commit)
      then done (refuse commit "delivery_commit_mismatch")
      else if not (authorize config peer_uid s.binding.pack s.binding.operation)
      then done (refuse commit "peer_not_authorized")
      else and_then (reading λ root. read_manifest root.controller.plane s.logical_run_id)
          λ manifest.
            try_then (save_new lock (delivery_of peer_uid now commit s manifest)) (on_saved commit)

  pub commit_for :
      BrokerConfig
      → Outcome (Unit {0})
      → ℤ
      → Datetime
      → BrokerDeliveryCommitRequest
      → Option BrokerRequestState
      → Exec BrokerRoot BrokerDeliveryCommitResponse
  unfolding commit_of
  commit_for config lock peer_uid now commit none = done (refuse commit "delivery_commit_not_ready")
  commit_for config lock peer_uid now commit (some s) = commit_of config lock peer_uid now commit s

  -- `handle_delivery_commit`, of a commit that is parsed
  unfoldable pub handle_delivery_commit :
      BrokerConfig
      → Outcome (Unit {0})
      → ℤ
      → Datetime
      → BrokerDeliveryCommitRequest
      → Exec BrokerRoot BrokerDeliveryCommitResponse
  unfolding commit_for
  handle_delivery_commit config lock peer_uid now commit =
      and_then (reading λ root. load_request root commit.request_id)
        λ s. commit_for config lock peer_uid now commit s
