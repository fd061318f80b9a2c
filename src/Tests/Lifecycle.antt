-- ===== src/Tests/Lifecycle.antt =====
-- The theorems on garbage collection at a state root with one held payload, one whose output is not
-- delivered, one that may go, and one with a pending intent.
use portable_batch_execution.Base.{
  ◌⊎◌, All, true, false, String, List, [], ◌∷◌, ◌≡◌, refl, none, some, ok, subst, ok-injective,
}
use portable_batch_execution.Base.Dict.{get}
use portable_batch_execution.Base.Int.{pos}
use portable_batch_execution.Contracts.Datetime.{Datetime}
use portable_batch_execution.Contracts.Job.{null, closed_brace}
use portable_batch_execution.Lifecycle.Apply.Accounted.{Accounted}
use portable_batch_execution.Lifecycle.Collect.{apply_gc, apply_report, apply_locked}
use portable_batch_execution.Lifecycle.Collect.Protected.{
  IntentsInFull, InFull, apply_gc-keeps_held, apply_report-keeps_protected,
}
use portable_batch_execution.Lifecycle.Collect.Safety.{apply_locked-accounts}
use portable_batch_execution.Lifecycle.Index.{empty_index, is_protected}
use portable_batch_execution.Lifecycle.Plan.{GcReport, GcCandidate, sweep_of}
use portable_batch_execution.Lifecycle.Reachability.{build_reachability_index, readable}
use portable_batch_execution.Lifecycle.Reachability.Held.{held-is_protected}
use portable_batch_execution.Lifecycle.Reachability.Outputs.{output-is_protected}
use portable_batch_execution.Lifecycle.Reachability.Requests.{output_of}
use portable_batch_execution.Lifecycle.Records.{
  BrokerRequestState, DeliveryRecord, DeletionIntent, HoldRecord, LifecyclePolicy, HoldKind,
  digest_hex, is_terminal_request,
}
use portable_batch_execution.Lifecycle.References.{Outside, ReferenceFile}
use portable_batch_execution.Lifecycle.Root.{
  StateRoot, PayloadFile, RequestFile, holding, unreadable, list_all, json_files, records_in,
}
use portable_batch_execution.Lifecycle.Sweep.{normal}
use portable_batch_execution.Tests.{noon}

abbrev pub nothing_outside : Outside
nothing_outside = record {
  is_dir = λ path. false;
  json_below = λ path. [];
  contents = λ path. ReferenceFile.missing;
}

abbrev pub policy : LifecyclePolicy
policy = record {
  delivery_grace_seconds = 60;
  legacy_retention_seconds = 3600;
  authoritative_reference_files = [];
  authoritative_reference_roots = [];
}

abbrev pub evening : Datetime
evening = record { micros = 72000000000; offset = some (pos 0) }

abbrev pub payload : PayloadFile
payload = record { size = 10; mtime = noon }

abbrev broker_request : String → String → String → BrokerRequestState
broker_request request_id status digest = record {
  request_id = request_id;
  binding = record {
    input_digest = "in";
    pack = "media";
    operation = "media.probe";
    operation_params = closed_brace;
    execution_fingerprint = "code";
    public_sha = "sha";
  };
  logical_run_id = "run";
  wave_id = "wave-0000";
  shard_id = "a";
  status = status;
  execution_id = none;
  output_sha256 = some digest;
  output_size_bytes = some (pos 10);
  output_media_type = none;
  dispatch_count = pos 1;
  last_dispatched_failure_count = pos 0;
  last_reconciled_attempt_marker = none;
}

abbrev request_file_of : String → String → String → RequestFile
request_file_of request_id status digest = record {
  content = some (broker_request request_id status digest);
  mtime = noon;
}

abbrev pub delivery : DeliveryRecord
delivery = record {
  request_id = "r2";
  logical_run_id = "run";
  artifact_digest = "sha256:ee";
  artifact_size_bytes = pos 10;
  producer_uid = null;
  consumer_uid = pos 1000;
  created_at = none;
  delivered_at = noon;
  provenance = null;
}

abbrev pub hold : HoldRecord
hold = record {
  hold_id = "h";
  kind = HoldKind.preserve;
  artifact_digests = "sha256:aa" ∷ [];
  reason = "audit";
  created_at = noon;
}

abbrev pending : DeletionIntent
pending = record {
  artifact_digest = "sha256:cc";
  artifact_size_bytes = pos 10;
  logical_run_ids = [];
  producer_uid = null;
  consumer_uid = null;
  provenance = null;
  created_at = none;
  delivered_at = none;
  intended_at = noon;
  mode = "normal";
  policy_identity = "policy";
}

abbrev pub root : StateRoot
root = record {
  artifacts = ("aa", payload) ∷ ("bb", payload) ∷ ("cc", payload) ∷ ("ee", payload) ∷ [];
  deliveries = ("r2", holding delivery) ∷ [];
  receipts = [];
  intents = ("cc", holding pending) ∷ [];
  holds = ("h", holding hold) ∷ [];
  requests =
      ("r1", request_file_of "r1" "succeeded" "sha256:bb")
      ∷ ("r2", request_file_of "r2" "succeeded" "sha256:ee")
      ∷ [];
  runs = [];
  closed_waves = [];
}

intents_in_full : IntentsInFull root
unfolding list_all json_files records_in digest_hex
intents_in_full intents h =
    subst (All (λ i. InFull i.artifact_digest)) (ok-injective (pending ∷ []) intents h) (refl, tt)

output-is_protected_example :
    is_protected (build_reachability_index nothing_outside root policy) "sha256:bb" ≡ true
unfolding output_of is_terminal_request json_files readable
output-is_protected_example = output-is_protected nothing_outside root policy "sha256:bb" refl

apply_gc-keeps_held_example :
    get (apply_gc nothing_outside policy normal evening [] root).1.artifacts "aa" ≡ some payload
apply_gc-keeps_held_example =
    apply_gc-keeps_held nothing_outside policy normal evening [] root "aa" intents_in_full refl

abbrev pub candidate : String → GcCandidate
candidate digest = record {
  digest = digest;
  size_bytes = pos 10;
  payload_mtime = some noon;
  effective_last_use = some noon;
  effective_age = some (pos 28800000000);
}

-- A report that was planned before the hold came.
abbrev stale_report : GcReport
stale_report = record {
  mode = normal;
  artifact_count = 4;
  artifact_bytes = 40;
  candidate_count = 2;
  candidate_bytes = 20;
  protected = [];
  candidates = candidate "sha256:aa" ∷ candidate "sha256:ee" ∷ [];
  deleted = [];
  unknown_references = [];
  run_reference_pairs = [];
  blocked = false;
  planned_at = noon;
}

apply_report-keeps_protected_example :
    get (apply_report nothing_outside policy normal evening [] stale_report root).1.artifacts "aa"
    ≡ some payload
unfolding digest_hex
apply_report-keeps_protected_example =
    apply_report-keeps_protected nothing_outside policy normal evening [] root stale_report "aa"
      intents_in_full (refl, (refl, tt))
      (held-is_protected nothing_outside root policy "sha256:aa" refl)

apply_locked-accounts_example :
    ((apply_locked empty_index policy normal evening ("sha256:ee" ∷ []) stale_report root).1 ≡ root)
    ⊎ ((deliveries : List DeliveryRecord) × (list_all root.deliveries ≡ ok deliveries)
        × Accounted InFull root
            (sweep_of empty_index deliveries policy evening normal)
            (apply_locked empty_index policy normal evening ("sha256:ee" ∷ []) stale_report root).1)
unfolding digest_hex
apply_locked-accounts_example =
    apply_locked-accounts empty_index policy normal evening InFull ("sha256:ee" ∷ []) stale_report
      root intents_in_full (refl, (refl, tt))

abbrev damaged_root : StateRoot
damaged_root = record root { holds = ("h", unreadable) ∷ [] }
