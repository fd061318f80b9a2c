-- ===== src/Lifecycle/Apply.antt =====
-- `apply_gc` of lifecycle/gc.py: the deletion of what the plan found. Each turn of its loops reads
-- first, which decides what it does, and then writes.
pub mod Decisions
pub mod Writes
pub mod Accounted
pub mod Changes
pub mod Safety
pub mod Deletes
use portable_batch_execution.Base.{
  String, ◌||◌, contains, Option, none, some, List, [], ◌∷◌, if◌then◌else◌, Outcome, ok,
  runtime_error, ◌>>=◌,
}
use portable_batch_execution.Base.Dict.{get, get_list}
use portable_batch_execution.Base.Exec.{Exec, done, fail, reading, and_then, for_each}
use portable_batch_execution.Base.Int.{ℤ}
use portable_batch_execution.Base.Order.{text_le}
use portable_batch_execution.Base.Sorting.{sorted}
use portable_batch_execution.Contracts.Datetime.{Datetime}
use portable_batch_execution.Contracts.Job.{null, int}
use portable_batch_execution.Lifecycle.Deletion.{
  save_receipt, save_intent, finalize_intent, unlink_payload,
}
use portable_batch_execution.Lifecycle.Index.{is_protected}
use portable_batch_execution.Lifecycle.Plan.{GcCandidate}
use portable_batch_execution.Lifecycle.Records.{
  DeliveryRecord, DeletionIntent, DeletionReceipt, digest_hex, to_receipt,
}
use portable_batch_execution.Lifecycle.Root.{StateRoot, list_all, unless_stored}
use portable_batch_execution.Lifecycle.Sweep.{
  Sweep, mode_text, payload_file, policy_identity_of, still_eligible,
}

abbrev delivery_field : {A : Type 0} → A → (DeliveryRecord → A) → Option DeliveryRecord → A
delivery_field missing read none = missing
delivery_field missing read (some delivery) = read delivery

-- `created_at` of the metadata: the delivery's, or else the time of the payload.
abbrev created_of : StateRoot → String → Option DeliveryRecord → Option Datetime
created_of root digest delivery = elim (delivery_field none (λ d. d.created_at) delivery) [
  | some at ↦ some at
  | none ↦ elim (payload_file root digest) [ none ↦ none | some file ↦ some file.mtime ]
]

-- `_deletion_intent_for_digest`, with `_deletion_metadata_for_digest`; mode, policy and time are the
-- sweep's in both of its calls.
pub deletion_intent_for : StateRoot → Sweep → String → ℤ → DeletionIntent
deletion_intent_for root sweep digest size =
    let delivery = get sweep.delivery_by_digest digest in
    record {
      artifact_digest = digest;
      artifact_size_bytes = size;
      logical_run_ids = sorted text_le (get_list sweep.index.run_ids_by_digest digest);
      producer_uid = delivery_field null (λ d. d.producer_uid) delivery;
      consumer_uid = delivery_field null (λ d. int d.consumer_uid) delivery;
      provenance = delivery_field null (λ d. d.provenance) delivery;
      created_at = created_of root digest delivery;
      delivered_at = delivery_field none (λ d. some d.delivered_at) delivery;
      intended_at = sweep.now;
      mode = mode_text sweep.mode;
      policy_identity = policy_identity_of sweep.policy;
    }

-- `_receipt_for_digest`: the same metadata, and the sweep's time as that of the deletion.
pub receipt_for : StateRoot → Sweep → String → ℤ → DeletionReceipt
receipt_for root sweep digest size =
    to_receipt (deletion_intent_for root sweep digest size) sweep.now

abbrev pub bare_candidate : String → ℤ → GcCandidate
bare_candidate digest size = record {
  digest = digest;
  size_bytes = size;
  payload_mtime = none;
  effective_last_use = none;
  effective_age = none;
}

pub data CandidateAction : Type 0 where
  pass_over : CandidateAction
  record_missing : DeletionReceipt → CandidateAction
  delete_payload : DeletionIntent → CandidateAction

pub decide_present : StateRoot → Sweep → GcCandidate → Outcome CandidateAction
decide_present root sweep c = still_eligible root sweep c.digest "" >>= λ eligible. ok (
    if eligible
    then delete_payload (deletion_intent_for root sweep c.digest c.size_bytes)
    else pass_over)

pub decide_unrecorded : StateRoot → Sweep → GcCandidate → Outcome CandidateAction
decide_unrecorded root sweep c =
    if is_protected sweep.index c.digest || contains sweep.index.unknown_digests c.digest
    then ok pass_over
    else elim (payload_file root c.digest) [
      | none ↦ ok (record_missing (receipt_for root sweep c.digest c.size_bytes))
      | some file ↦ decide_present root sweep c
    ]

-- The reads of one turn of `_apply_gc_candidates`
pub decide_candidate : StateRoot → Sweep → GcCandidate → Outcome CandidateAction
decide_candidate root sweep c = unless_stored (get root.receipts (digest_hex c.digest)) pass_over (
    unless_stored (get root.intents (digest_hex c.digest)) pass_over
      (decide_unrecorded root sweep c))

-- What follows the deletion of a payload: the receipt for its intent, and the intent's end.
unfoldable pub settle : Sweep → DeletionIntent → Exec StateRoot (Unit {0})
settle sweep intent =
    and_then (save_receipt (to_receipt intent sweep.now))
      λ _. finalize_intent intent.artifact_digest

-- The writes of that turn; the set is of the digests after whose deletion a crash is simulated.
unfoldable pub perform_candidate :
    Sweep → List String → GcCandidate → CandidateAction → Exec StateRoot (List GcCandidate)
perform_candidate sweep crashes c pass_over = done []
perform_candidate sweep crashes c (record_missing receipt) =
    and_then (save_receipt receipt) λ _. done (c ∷ [])
perform_candidate sweep crashes c (delete_payload intent) = and_then (save_intent intent) λ _.
    and_then (unlink_payload c.digest) λ _.
      if contains crashes c.digest
      then fail (runtime_error "simulated crash during gc sweep")
      else and_then (settle sweep intent) λ _. done (c ∷ [])

unfoldable pub apply_candidate :
    Sweep → List String → GcCandidate → Exec StateRoot (List GcCandidate)
apply_candidate sweep crashes c =
    and_then (reading (λ root. decide_candidate root sweep c)) (perform_candidate sweep crashes c)

pub data IntentAction : Type 0 where
  abandon finish delete_again : IntentAction

pub decide_again : StateRoot → Sweep → DeletionIntent → Outcome IntentAction
decide_again root sweep i = still_eligible root sweep i.artifact_digest i.mode >>= λ eligible.
    ok (if eligible then delete_again else abandon)

pub decide_unfinished : StateRoot → Sweep → DeletionIntent → Outcome IntentAction
decide_unfinished root sweep i = elim (payload_file root i.artifact_digest) [
  | none ↦ ok finish
  | some file ↦
      if is_protected sweep.index i.artifact_digest
        || contains sweep.index.unknown_digests i.artifact_digest
      then ok abandon
      else decide_again root sweep i
]

-- The reads of one turn of `_converge_pending_deletion_intents`
pub decide_intent : StateRoot → Sweep → DeletionIntent → Outcome IntentAction
decide_intent root sweep i =
    unless_stored (get root.receipts (digest_hex i.artifact_digest)) abandon
      (decide_unfinished root sweep i)

-- The writes of that turn
unfoldable pub perform_intent :
    Sweep → DeletionIntent → IntentAction → Exec StateRoot (List GcCandidate)
perform_intent sweep i abandon = and_then (finalize_intent i.artifact_digest) λ _. done []
perform_intent sweep i finish =
    and_then (settle sweep i)
      λ _. done (bare_candidate i.artifact_digest i.artifact_size_bytes ∷ [])
perform_intent sweep i delete_again = and_then (unlink_payload i.artifact_digest) λ _.
    and_then (settle sweep i)
      λ _. done (bare_candidate i.artifact_digest i.artifact_size_bytes ∷ [])

unfoldable pub converge_intent : Sweep → DeletionIntent → Exec StateRoot (List GcCandidate)
converge_intent sweep i =
    and_then (reading (λ root. decide_intent root sweep i)) (perform_intent sweep i)

-- `_converge_pending_deletion_intents`
unfoldable pub converge_intents : Sweep → Exec StateRoot (List GcCandidate)
converge_intents sweep =
    and_then (reading (λ root. list_all root.intents)) (for_each (converge_intent sweep))
