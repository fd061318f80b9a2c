-- ===== src/Lifecycle/Records.antt =====
-- The records of the lifecycle: deliveries, deletion intents and receipts, holds, the policy, and
-- the broker's request states, which the lifecycle reads.
use portable_batch_execution.Base.{ℕ, String, Bool, ◌||◌, Option, List, ◌==◌}
use portable_batch_execution.Base.Int.{ℤ}
use portable_batch_execution.Contracts.Datetime.{Datetime}
use portable_batch_execution.Contracts.Job.{Fields, Param}
use portable_batch_execution.DataPlane.Artifacts.{removeprefix}

-- `provenance` and `producer_uid` are whatever JSON the record was given: `null` for None.
pub record DeliveryRecord : Type 0 where
  pub request_id : String
  pub logical_run_id : String
  pub artifact_digest : String
  pub artifact_size_bytes : ℤ
  pub producer_uid : Param
  pub consumer_uid : ℤ
  pub created_at : Option Datetime
  pub delivered_at : Datetime
  pub provenance : Param

pub record DeletionReceipt : Type 0 where
  pub artifact_digest : String
  pub artifact_size_bytes : ℤ
  pub logical_run_ids : List String
  pub producer_uid : Param
  pub consumer_uid : Param
  pub provenance : Param
  pub deleted_at : Datetime
  pub mode : String
  pub policy_identity : String
  pub created_at : Option Datetime
  pub delivered_at : Option Datetime

pub record DeletionIntent : Type 0 where
  pub artifact_digest : String
  pub artifact_size_bytes : ℤ
  pub logical_run_ids : List String
  pub producer_uid : Param
  pub consumer_uid : Param
  pub provenance : Param
  pub created_at : Option Datetime
  pub delivered_at : Option Datetime
  pub intended_at : Datetime
  pub mode : String
  pub policy_identity : String

-- `DeletionIntent.to_receipt`
unfoldable pub to_receipt : DeletionIntent → Datetime → DeletionReceipt
to_receipt i deleted_at = record {
  artifact_digest = i.artifact_digest;
  artifact_size_bytes = i.artifact_size_bytes;
  logical_run_ids = i.logical_run_ids;
  producer_uid = i.producer_uid;
  consumer_uid = i.consumer_uid;
  provenance = i.provenance;
  deleted_at = deleted_at;
  mode = i.mode;
  policy_identity = i.policy_identity;
  created_at = i.created_at;
  delivered_at = i.delivered_at;
}

-- Without the prefix, `removeprefix` returns the text itself, so the source's test changes nothing.
unfoldable pub digest_hex : String → String
unfolding removeprefix
digest_hex digest = removeprefix digest "sha256:"

pub data HoldKind : Type 0 where
  preserve hold : HoldKind

pub record HoldRecord : Type 0 where
  pub hold_id : String
  pub kind : HoldKind
  pub artifact_digests : List String
  pub reason : String
  pub created_at : Datetime

pub record LifecyclePolicy : Type 0 where
  pub delivery_grace_seconds : ℕ
  pub legacy_retention_seconds : ℕ
  pub authoritative_reference_files : List String
  pub authoritative_reference_roots : List String

pub record RequestBinding : Type 0 where
  pub input_digest : String
  pub pack : String
  pub operation : String
  pub operation_params : Fields
  pub execution_fingerprint : String
  pub public_sha : String

pub record BrokerRequestState : Type 0 where
  pub request_id : String
  pub binding : RequestBinding
  pub logical_run_id : String
  pub wave_id : String
  pub shard_id : String
  pub status : String
  pub execution_id : Option String
  pub output_sha256 : Option String
  pub output_size_bytes : Option ℤ
  pub output_media_type : Option String
  pub dispatch_count : ℤ
  pub last_dispatched_failure_count : ℤ
  pub last_reconciled_attempt_marker : Option String

-- `status in BROKER_TERMINAL_REQUEST_STATUSES`
unfoldable pub is_terminal_request : String → Bool
is_terminal_request s =
    (s == "succeeded") || (s == "exhausted") || (s == "failed") || (s == "cancelled")

-- `status in BROKER_TRANSPORT_OUTPUT_STATUSES`
unfoldable pub is_transport_output : String → Bool
is_transport_output s = (s == "succeeded") || (s == "exhausted")
