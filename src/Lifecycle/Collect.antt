-- ===== src/Lifecycle/Collect.antt =====
-- `apply_gc` of lifecycle/gc.py as a whole, with its last loop.
pub mod Safety
pub mod Protected
pub mod Unreadable
pub mod Legacy
pub mod Frame
pub mod Unchanged
use portable_batch_execution.Base.{
  String, Bool, true, not, ◌||◌, ◌++◌, map, to_set, contains, none, some, List, [], ◌∷◌,
  if◌then◌else◌, Outcome, ok, ◌>>=◌,
}
use portable_batch_execution.Base.Decimal.{after}
use portable_batch_execution.Base.Dict.{get, values}
use portable_batch_execution.Base.Exec.{Exec, done, reading, and_then, for_each}
use portable_batch_execution.Base.Order.{text_le}
use portable_batch_execution.Base.Sorting.{sorted}
use portable_batch_execution.Contracts.Attempt.{is_empty}
use portable_batch_execution.Contracts.Datetime.{Datetime}
use portable_batch_execution.Lifecycle.Apply.{
  apply_candidate, bare_candidate, converge_intents, receipt_for,
}
use portable_batch_execution.Lifecycle.Deletion.{save_receipt}
use portable_batch_execution.Lifecycle.Index.{ReachabilityIndex, is_protected, is_uncertain}
use portable_batch_execution.Lifecycle.Plan.{GcCandidate, GcReport, eligible_in, sweep_of, plan_gc}
use portable_batch_execution.Lifecycle.Reachability.{build_reachability_index}
use portable_batch_execution.Lifecycle.Records.{
  DeliveryRecord, DeletionReceipt, LifecyclePolicy, digest_hex,
}
use portable_batch_execution.Lifecycle.References.{Outside}
use portable_batch_execution.Lifecycle.Root.{StateRoot, list_all, unless_stored}
use portable_batch_execution.Lifecycle.Sweep.{GcMode, Sweep, payload_file}

-- What a turn of the last loop does: it goes on before it marks the digest as seen, or after it, or
-- it writes a receipt.
pub data MissingAction : Type 0 where
  unmarked marked : MissingAction
  record_receipt : DeletionReceipt → MissingAction

pub decide_marked : StateRoot → Sweep → DeliveryRecord → Outcome MissingAction
decide_marked root sweep d = elim (payload_file root d.artifact_digest) [
  | some file ↦ ok marked
  | none ↦
      if is_protected sweep.index d.artifact_digest
      then ok marked
      else eligible_in sweep.mode root sweep d.artifact_digest >>= λ eligible. ok (
          if eligible
          then record_receipt (receipt_for root sweep d.artifact_digest d.artifact_size_bytes)
          else marked)
]

pub decide_missing : StateRoot → Sweep → List String → DeliveryRecord → Outcome MissingAction
decide_missing root sweep seen d =
    if contains seen d.artifact_digest
    then ok unmarked
    else unless_stored (get root.receipts (digest_hex d.artifact_digest)) unmarked
        (decide_marked root sweep d)

abbrev seen_after : List String → DeliveryRecord → MissingAction → List String
seen_after seen d unmarked = seen
seen_after seen d _ = d.artifact_digest ∷ seen

pub perform_missing : DeliveryRecord → MissingAction → Exec StateRoot (List GcCandidate)
perform_missing d unmarked = done []
perform_missing d marked = done []
perform_missing d (record_receipt receipt) =
    and_then (save_receipt receipt)
      λ _. done (bare_candidate d.artifact_digest d.artifact_size_bytes ∷ [])

-- `_converge_receipts_for_missing_payloads`, from a set of seen digests
pub converge_missing : Sweep → List String → List DeliveryRecord → Exec StateRoot (List GcCandidate)
converge_missing sweep seen [] = done []
converge_missing sweep seen (d ∷ ds) =
    and_then (reading (λ root. decide_missing root sweep seen d)) λ action.
      and_then (perform_missing d action) λ found.
        and_then (converge_missing sweep (seen_after seen d action) ds)
          λ later. done (found ++ later)

-- The three loops under the lock.
pub delete_all : Sweep → List String → List GcCandidate → Exec StateRoot (List GcCandidate)
delete_all sweep crashes candidates = and_then (converge_intents sweep) λ resumed.
    and_then (for_each (apply_candidate sweep crashes) candidates) λ planned.
      and_then (converge_missing sweep [] (values sweep.delivery_by_digest))
        λ receipted. done (resumed ++ planned ++ receipted)

pub blocked_report : GcReport → ReachabilityIndex → GcReport
blocked_report report i = record report {
  blocked = true;
  unknown_references = sorted text_le (
      to_set (
        report.unknown_references
        ++ i.unknown_messages
        ++ map (λ d. after "unknown digest: " d) i.unknown_digests));
}

-- What `apply_gc` does with the lock, for a report from before it; `index` is built again.
pub apply_locked :
    ReachabilityIndex
    → LifecyclePolicy
    → GcMode
    → Datetime
    → List String
    → GcReport
    → Exec StateRoot GcReport
apply_locked index policy mode now crashes report =
    if is_uncertain index
    then done (blocked_report report index)
    else and_then (reading (λ root. list_all root.deliveries)) λ deliveries.
      and_then (delete_all (sweep_of index deliveries policy now mode) crashes report.candidates)
        λ deleted. done (record report { deleted = deleted })

module _ (outside : Outside) where
  -- With the lock, on the state that is there then, and with a report that was planned before.
  pub apply_report :
      LifecyclePolicy → GcMode → Datetime → List String → GcReport → Exec StateRoot GcReport
  apply_report policy mode now crashes report root =
      apply_locked (build_reachability_index outside root policy) policy mode now crashes report
        root

  -- `apply_gc`, where nothing else changes the state between the plan and the lock
  pub apply_gc : LifecyclePolicy → GcMode → Datetime → List String → Exec StateRoot GcReport
  apply_gc policy mode now crashes =
      and_then (reading (λ root. plan_gc outside root policy mode now)) λ report.
        if report.blocked then done report else apply_report policy mode now crashes report
