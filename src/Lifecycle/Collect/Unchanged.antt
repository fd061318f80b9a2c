-- ===== src/Lifecycle/Collect/Unchanged.antt =====
-- `apply_gc` as a whole only adds receipts, changes intents, and takes payloads away.
use portable_batch_execution.Base.{All, String, List, [], ◌∷◌, ◌++◌, contains}
use portable_batch_execution.Base.Dict.{values}
use portable_batch_execution.Base.Exec.{
  Keeps, done-Keeps, fail-Keeps, reading-Keeps, if-Keeps, and_then-Keeps, for_each-Keeps,
}
use portable_batch_execution.Contracts.Datetime.{Datetime}
use portable_batch_execution.Lifecycle.Apply.{
  CandidateAction, pass_over, record_missing, delete_payload, perform_candidate, apply_candidate,
  settle, IntentAction, abandon, finish, delete_again, perform_intent, converge_intent,
  converge_intents,
}
use portable_batch_execution.Lifecycle.Collect.{
  MissingAction, unmarked, marked, record_receipt, seen_after, perform_missing, converge_missing,
  delete_all, apply_locked, apply_report, apply_gc,
}
use portable_batch_execution.Lifecycle.Collect.Frame.{
  Sweeps, Sweeps-refl, save_receipt-Sweeps, save_intent-Sweeps, finalize_intent-Sweeps,
  unlink_payload-Sweeps,
}
use portable_batch_execution.Lifecycle.Index.{ReachabilityIndex, is_uncertain}
use portable_batch_execution.Lifecycle.Plan.{GcCandidate, GcReport, sweep_of}
use portable_batch_execution.Lifecycle.Reachability.{build_reachability_index}
use portable_batch_execution.Lifecycle.Records.{
  DeletionIntent, DeliveryRecord, LifecyclePolicy, to_receipt,
}
use portable_batch_execution.Lifecycle.References.{Outside}
use portable_batch_execution.Lifecycle.Root.{StateRoot}
use portable_batch_execution.Lifecycle.Sweep.{GcMode, Sweep}

every : {A : Type 0} (xs : List A) → All (λ x. Unit {0}) xs
every [] = tt
every (x ∷ xs) = (tt, every xs)

module _ (s0 : StateRoot) (sweep : Sweep) where
  settle-Sweeps : (i : DeletionIntent) → Keeps (Sweeps s0) (settle sweep i)
  unfolding settle
  settle-Sweeps i =
      and_then-Keeps (Sweeps s0) _ _ (save_receipt-Sweeps s0 (to_receipt i sweep.now))
        λ _. finalize_intent-Sweeps s0 i.artifact_digest

  perform_candidate-Sweeps :
      (crashes : List String) (c : GcCandidate) (action : CandidateAction)
      → Keeps (Sweeps s0) (perform_candidate sweep crashes c action)
  unfolding perform_candidate
  perform_candidate-Sweeps crashes c pass_over = done-Keeps (Sweeps s0) []
  perform_candidate-Sweeps crashes c (record_missing r) =
      and_then-Keeps (Sweeps s0) _ _ (save_receipt-Sweeps s0 r) λ _. done-Keeps (Sweeps s0) (c ∷ [])
  perform_candidate-Sweeps crashes c (delete_payload i) =
      and_then-Keeps (Sweeps s0) _ _ (save_intent-Sweeps s0 i) λ _.
        and_then-Keeps (Sweeps s0) _ _ (unlink_payload-Sweeps s0 c.digest) λ _.
          if-Keeps (Sweeps s0) (contains crashes c.digest) _ _ (fail-Keeps (Sweeps s0) _)
            (and_then-Keeps (Sweeps s0) _ _ (settle-Sweeps i) λ _. done-Keeps (Sweeps s0) (c ∷ []))

  perform_intent-Sweeps :
      (i : DeletionIntent) (action : IntentAction)
      → Keeps (Sweeps s0) (perform_intent sweep i action)
  unfolding perform_intent
  perform_intent-Sweeps i abandon =
      and_then-Keeps (Sweeps s0) _ _ (finalize_intent-Sweeps s0 i.artifact_digest)
        λ _. done-Keeps (Sweeps s0) []
  perform_intent-Sweeps i finish =
      and_then-Keeps (Sweeps s0) _ _ (settle-Sweeps i) λ _. done-Keeps (Sweeps s0) _
  perform_intent-Sweeps i delete_again =
      and_then-Keeps (Sweeps s0) _ _ (unlink_payload-Sweeps s0 i.artifact_digest)
        λ _. and_then-Keeps (Sweeps s0) _ _ (settle-Sweeps i) λ _. done-Keeps (Sweeps s0) _

  perform_missing-Sweeps :
      (d : DeliveryRecord) (action : MissingAction) → Keeps (Sweeps s0) (perform_missing d action)
  unfolding perform_missing
  perform_missing-Sweeps d unmarked = done-Keeps (Sweeps s0) []
  perform_missing-Sweeps d marked = done-Keeps (Sweeps s0) []
  perform_missing-Sweeps d (record_receipt r) =
      and_then-Keeps (Sweeps s0) _ _ (save_receipt-Sweeps s0 r) λ _. done-Keeps (Sweeps s0) _

  converge_missing-Sweeps :
      (seen : List String) (ds : List DeliveryRecord)
      → Keeps (Sweeps s0) (converge_missing sweep seen ds)
  unfolding converge_missing
  converge_missing-Sweeps seen [] = done-Keeps (Sweeps s0) []
  converge_missing-Sweeps seen (d ∷ ds) =
      and_then-Keeps (Sweeps s0) _ _ (reading-Keeps (Sweeps s0) _) λ action.
        and_then-Keeps (Sweeps s0) _ _ (perform_missing-Sweeps d action) λ found.
          and_then-Keeps (Sweeps s0) _ _ (converge_missing-Sweeps (seen_after seen d action) ds)
            λ later. done-Keeps (Sweeps s0) (found ++ later)

  delete_all-Sweeps :
      (crashes : List String) (candidates : List GcCandidate)
      → Keeps (Sweeps s0) (delete_all sweep crashes candidates)
  unfolding delete_all converge_intents converge_intent apply_candidate
  delete_all-Sweeps crashes candidates =
      and_then-Keeps (Sweeps s0) _ _
        (and_then-Keeps (Sweeps s0) _ _ (reading-Keeps (Sweeps s0) _) λ intents.
          for_each-Keeps (Sweeps s0) (λ i. Unit {0}) (converge_intent sweep)
            (λ i _.
              and_then-Keeps (Sweeps s0) _ _ (reading-Keeps (Sweeps s0) _)
                (perform_intent-Sweeps i))
            intents (every intents))
        λ resumed.
          and_then-Keeps (Sweeps s0) _ _
            (for_each-Keeps (Sweeps s0) (λ c. Unit {0}) (apply_candidate sweep crashes)
              (λ c _.
                and_then-Keeps (Sweeps s0) _ _ (reading-Keeps (Sweeps s0) _)
                  (perform_candidate-Sweeps crashes c))
              candidates (every candidates))
            λ planned.
              and_then-Keeps (Sweeps s0) _ _
                (converge_missing-Sweeps [] (values sweep.delivery_by_digest))
                λ receipted. done-Keeps (Sweeps s0) (resumed ++ planned ++ receipted)

apply_locked-Sweeps :
    (s0 : StateRoot) (index : ReachabilityIndex) (policy : LifecyclePolicy) (mode : GcMode)
    (now : Datetime) (crashes : List String) (report : GcReport)
    → Keeps (Sweeps s0) (apply_locked index policy mode now crashes report)
unfolding apply_locked
apply_locked-Sweeps s0 index policy mode now crashes report =
    if-Keeps (Sweeps s0) (is_uncertain index) _ _ (done-Keeps (Sweeps s0) _) (
      and_then-Keeps (Sweeps s0) _ _ (reading-Keeps (Sweeps s0) _) λ deliveries.
        and_then-Keeps (Sweeps s0) _ _
          (delete_all-Sweeps s0 (sweep_of index deliveries policy now mode) crashes
            report.candidates)
          λ deleted. done-Keeps (Sweeps s0) _)

-- apply_gc, whether it returns or raises, in any mode and for any simulated crash, leaves
-- deliveries, holds, requests, runs and closed waves as they are and every receipt file as it
-- was, and no payload is new or changed after it.
pub apply_gc-Sweeps :
    (outside : Outside) (policy : LifecyclePolicy) (mode : GcMode) (now : Datetime)
    (crashes : List String) (root : StateRoot)
    → Sweeps root (apply_gc outside policy mode now crashes root).1
unfolding apply_gc apply_report
apply_gc-Sweeps outside policy mode now crashes root =
    (and_then-Keeps (Sweeps root) _ _ (reading-Keeps (Sweeps root) _) λ report.
        if-Keeps (Sweeps root) report.blocked _ _ (done-Keeps (Sweeps root) report) (record {
          holds = λ s h.
              (apply_locked-Sweeps root (build_reachability_index outside s policy) policy mode now
                  crashes report).holds
                s h;
        })).holds
      root (Sweeps-refl root)
