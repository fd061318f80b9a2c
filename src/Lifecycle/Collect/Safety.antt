-- ===== src/Lifecycle/Collect/Safety.antt =====
-- What `apply_gc` may delete, whatever report it is given and however it ends.
use portable_batch_execution.Base.{
  ◌⊎◌, refl, All, Outcome-cases, false, String, List, [], ◌∷◌, ◌++◌, Bool-cases, ok, ◌≡◌, inl, inr,
}
use portable_batch_execution.Base.Dict.{values}
use portable_batch_execution.Base.Exec.{
  Keeps, done, reading, and_then, done-Keeps, and_then-Keeps, read_then-Keeps, for_each-Keeps,
  resume-holds,
}
use portable_batch_execution.Contracts.Datetime.{Datetime}
use portable_batch_execution.Lifecycle.Apply.{apply_candidate, converge_intents}
use portable_batch_execution.Lifecycle.Apply.Accounted.{Accounted}
use portable_batch_execution.Lifecycle.Apply.Safety.{
  save_receipt-Keeps, apply_candidate-Keeps, converge_intents-holds,
}
use portable_batch_execution.Lifecycle.Collect.{
  MissingAction, unmarked, marked, record_receipt, decide_missing, seen_after, perform_missing,
  converge_missing, delete_all, apply_locked,
}
use portable_batch_execution.Lifecycle.Deletion.{save_receipt}
use portable_batch_execution.Lifecycle.Index.{ReachabilityIndex, is_uncertain}
use portable_batch_execution.Lifecycle.Plan.{GcCandidate, GcReport, sweep_of}
use portable_batch_execution.Lifecycle.Records.{DeletionIntent, DeliveryRecord, LifecyclePolicy}
use portable_batch_execution.Lifecycle.Root.{StateRoot, list_all}
use portable_batch_execution.Lifecycle.Sweep.{GcMode, Sweep}

module _ (Q : String → Type 0) (s0 : StateRoot) (sweep : Sweep) where
  perform_missing-Keeps :
      (d : DeliveryRecord) (action : MissingAction)
      → Keeps (Accounted Q s0 sweep) (perform_missing d action)
  unfolding perform_missing
  perform_missing-Keeps d unmarked = done-Keeps (Accounted Q s0 sweep) []
  perform_missing-Keeps d marked = done-Keeps (Accounted Q s0 sweep) []
  perform_missing-Keeps d (record_receipt r) =
      and_then-Keeps (Accounted Q s0 sweep) (save_receipt r) _ (save_receipt-Keeps Q s0 sweep r)
        λ _. done-Keeps (Accounted Q s0 sweep) _

  converge_missing-Keeps :
      (seen : List String) (ds : List DeliveryRecord)
      → Keeps (Accounted Q s0 sweep) (converge_missing sweep seen ds)
  unfolding converge_missing
  converge_missing-Keeps seen [] = done-Keeps (Accounted Q s0 sweep) []
  converge_missing-Keeps seen (d ∷ ds) =
      read_then-Keeps (Accounted Q s0 sweep) (λ root. decide_missing root sweep seen d) _
        λ s action eq h.
          (and_then-Keeps (Accounted Q s0 sweep) (perform_missing d action) _
              (perform_missing-Keeps d action)
              λ found.
                and_then-Keeps (Accounted Q s0 sweep)
                  (converge_missing sweep (seen_after seen d action) ds) _
                  (converge_missing-Keeps (seen_after seen d action) ds)
                  λ later. done-Keeps (Accounted Q s0 sweep) (found ++ later)).holds
            s h

  -- The digests that may be deleted are known: those of the pending intents, and the candidates'.
  delete_all-Accounted :
      (crashes : List String) (candidates : List GcCandidate)
      → ((intents : List DeletionIntent)
          → list_all s0.intents ≡ ok intents
          → All (λ i. Q i.artifact_digest) intents)
      → All (λ c. Q c.digest) candidates
      → Accounted Q s0 sweep (delete_all sweep crashes candidates s0).1
  unfolding delete_all and_then
  delete_all-Accounted crashes candidates intents known =
      resume-holds (Accounted Q s0 sweep) (converge_intents sweep s0) _
        (λ resumed.
          and_then-Keeps (Accounted Q s0 sweep) _ _
            (for_each-Keeps (Accounted Q s0 sweep) (λ c. Q c.digest) (apply_candidate sweep crashes)
              (apply_candidate-Keeps Q s0 sweep crashes) candidates known)
            λ planned.
              and_then-Keeps (Accounted Q s0 sweep) _ _
                (converge_missing-Keeps [] (values sweep.delivery_by_digest))
                λ receipted. done-Keeps (Accounted Q s0 sweep) (resumed ++ planned ++ receipted))
        (converge_intents-holds Q s0 sweep intents)

module _ (index : ReachabilityIndex) (policy : LifecyclePolicy) (mode : GcMode)
    (now : Datetime) where
  apply_locked-certain :
      (Q : String → Type 0) (crashes : List String) (report : GcReport) (root : StateRoot)
      (deliveries : List DeliveryRecord)
      → list_all root.deliveries ≡ ok deliveries
      → is_uncertain index ≡ false
      → ((intents : List DeletionIntent)
          → list_all root.intents ≡ ok intents
          → All (λ i. Q i.artifact_digest) intents)
      → All (λ c. Q c.digest) report.candidates
      → Accounted Q root
          (sweep_of index deliveries policy now mode)
          (apply_locked index policy mode now crashes report root).1
  unfolding apply_locked and_then reading done
  apply_locked-certain Q crashes report root deliveries h e intents known =
      let sweep = sweep_of index deliveries policy now mode in
      rw (e, h, apply_locked)
        (resume-holds (Accounted Q root sweep) (delete_all sweep crashes report.candidates root) _
          (λ deleted. done-Keeps (Accounted Q root sweep) (record report { deleted = deleted }))
          (delete_all-Accounted Q root sweep crashes report.candidates intents known))

  -- Under the lock, for any index, report and simulated crash, whether it returns or raises:
  -- nothing has changed, or the deliveries are readable and by the sweep over them the requests
  -- are as they were and every payload is as it was, or is gone, has a receipt or an intent, and
  -- some digest of its name, with any property Q that the digests of the pending intents and of
  -- the candidates have, was unprotected and eligible in the state from before.
  pub apply_locked-accounts :
      (Q : String → Type 0) (crashes : List String) (report : GcReport) (root : StateRoot)
      → ((intents : List DeletionIntent)
          → list_all root.intents ≡ ok intents
          → All (λ i. Q i.artifact_digest) intents)
      → All (λ c. Q c.digest) report.candidates
      → ((apply_locked index policy mode now crashes report root).1 ≡ root)
        ⊎ ((deliveries : List DeliveryRecord) × (list_all root.deliveries ≡ ok deliveries)
            × Accounted Q root
                (sweep_of index deliveries policy now mode)
                (apply_locked index policy mode now crashes report root).1)
  unfolding apply_locked and_then reading done
  apply_locked-accounts Q crashes report root intents known =
      elim (Bool-cases (is_uncertain index)) [
        | inl e ↦ inl (rw (e, apply_locked) refl)
        | inr e ↦ elim (Outcome-cases (list_all root.deliveries)) [
          | inr (err, h) ↦ inl (rw (e, h, apply_locked) refl)
          | inl (deliveries, h) ↦ inr (
            deliveries,
            h,
            apply_locked-certain Q crashes report root deliveries h e intents known,
          )
        ]
      ]
