-- ===== src/Lifecycle/Collect/Legacy.antt =====
-- `_converge_receipts_for_missing_payloads` in a legacy sweep.
use portable_batch_execution.Base.{
  Error, Outcome-cases, ◌*◌, false, String, List, [], ◌∷◌, ◌++◌, any, none, Option-cases,
  Bool-cases, ok, raise, file_not_found, ◌≡◌, ◌⊎◌, refl, sym, ◌∙◌, ap, ok-injective, contains, inl,
  inr, arith,
}
use portable_batch_execution.Base.Dict.{get}
use portable_batch_execution.Base.Exec.{Keeps, done-Keeps, and_then-Keeps, read_then-Keeps}
use portable_batch_execution.Contracts.Datetime.{second}
use portable_batch_execution.Kernel.Ranges.{timedelta}
use portable_batch_execution.Lifecycle.Collect.{
  MissingAction, unmarked, marked, decide_marked, decide_missing, seen_after, perform_missing,
  converge_missing,
}
use portable_batch_execution.Lifecycle.Index.{is_protected}
use portable_batch_execution.Lifecycle.Plan.{eligible_in}
use portable_batch_execution.Lifecycle.Records.{DeliveryRecord, digest_hex}
use portable_batch_execution.Lifecycle.Root.{StateRoot, unless_stored, unless_stored-returns}
use portable_batch_execution.Lifecycle.Sweep.{
  legacy, Sweep, payload_file, has_delivery, broker_requests_for_digest, legacy_eligible,
  legacy_effective_last_use,
}

module _ (sweep : Sweep) where
  -- Without its payload, no digest is eligible: the time of the last use cannot be found.
  legacy_eligible-missing :
      (root : StateRoot) (digest : String)
      → payload_file root digest ≡ none
      → (legacy_eligible root sweep digest ≡ ok false)
        ⊎ ((e : Error) × (legacy_eligible root sweep digest ≡ raise e))
  unfolding legacy_eligible legacy_effective_last_use
  legacy_eligible-missing root digest h =
      elim (Bool-cases
        (any (has_delivery sweep) (broker_requests_for_digest root sweep.index digest))) [
          | inl e ↦ inl (rw (e, legacy_eligible) refl)
          | inr e ↦
              elim (Outcome-cases (timedelta (sweep.policy.legacy_retention_seconds * second))) [
                | inl (retention, t) ↦ inr (file_not_found, rw (e, legacy_eligible, t, h) refl)
                | inr (err, t) ↦ inr (err, rw (e, legacy_eligible, t) refl)
              ]
        ]

  eligible_in-legacy :
      (root : StateRoot) (digest : String)
      → sweep.mode ≡ legacy
      → eligible_in sweep.mode root sweep digest ≡ legacy_eligible root sweep digest
  unfolding eligible_in
  eligible_in-legacy root digest m = ap (λ mode. eligible_in mode root sweep digest) m

  decide_marked-legacy :
      (root : StateRoot) (d : DeliveryRecord)
      → sweep.mode ≡ legacy
      → (decide_marked root sweep d ≡ ok marked)
        ⊎ ((e : Error) × (decide_marked root sweep d ≡ raise e))
  unfolding decide_marked
  decide_marked-legacy root d m =
      let same = eligible_in-legacy root d.artifact_digest m in
      elim (Option-cases (payload_file root d.artifact_digest)) [
        | inr (file, e) ↦ inl (rw (e, decide_marked) refl)
        | inl e ↦ elim (Bool-cases (is_protected sweep.index d.artifact_digest)) [
          | inl f ↦ inl (rw (e, decide_marked, f) refl)
          | inr f ↦ elim (legacy_eligible-missing root d.artifact_digest e) [
            | inl g ↦ inl (rw (e, decide_marked, f, same ∙ g) refl)
            | inr (err, g) ↦ inr (err, rw (e, decide_marked, f, same ∙ g) refl)
          ]
        ]
      ]

  decide_missing-legacy :
      (root : StateRoot) (seen : List String) (d : DeliveryRecord) (action : MissingAction)
      → sweep.mode ≡ legacy
      → decide_missing root sweep seen d ≡ ok action
      → (action ≡ unmarked) ⊎ (action ≡ marked)
  unfolding decide_missing
  decide_missing-legacy root seen d action m h =
      elim (Bool-cases (contains seen d.artifact_digest)) [
        | inl e ↦ inl (ground (arith, e, h))
        | inr e ↦
            let held : decide_missing root sweep seen d
                ≡ unless_stored (get root.receipts (digest_hex d.artifact_digest)) unmarked
                    (decide_marked root sweep d) =
              rw (e, decide_missing) refl in
            elim (unless_stored-returns (get root.receipts (digest_hex d.artifact_digest)) _ _ _
              (sym held ∙ h)) [
                | inl (r, stored, same) ↦ inl (sym same)
                | inr (no_receipt, rest) ↦ elim (decide_marked-legacy root d m) [
                  | inl f ↦ inr (ok-injective action marked (sym rest ∙ f))
                  | inr (err, f) ↦ ground (arith, rest, f)
                ]
              ]
      ]

  perform_legacy :
      (d : DeliveryRecord) (action : MissingAction) (P : StateRoot → Type 0)
      → (action ≡ unmarked) ⊎ (action ≡ marked)
      → Keeps P (perform_missing d action)
  unfolding perform_missing
  perform_legacy d action P (inl e) = rw (e, perform_missing) (done-Keeps P [])
  perform_legacy d action P (inr e) = rw (e, perform_missing) (done-Keeps P [])

  converge_missing-Keeps :
      (seen : List String) (deliveries : List DeliveryRecord) (root : StateRoot)
      → sweep.mode ≡ legacy
      → Keeps (λ s. s ≡ root) (converge_missing sweep seen deliveries)
  unfolding converge_missing
  converge_missing-Keeps seen [] root m = done-Keeps (λ s. s ≡ root) []
  converge_missing-Keeps seen (d ∷ ds) root m =
      read_then-Keeps (λ s. s ≡ root) (λ s. decide_missing s sweep seen d) _
        λ s action eq h.
          (and_then-Keeps (λ s. s ≡ root) (perform_missing d action) _
              (perform_legacy d action (λ s. s ≡ root) (decide_missing-legacy s seen d action m eq))
              λ found.
                and_then-Keeps (λ s. s ≡ root)
                  (converge_missing sweep (seen_after seen d action) ds) _
                  (converge_missing-Keeps (seen_after seen d action) ds root m)
                  λ later. done-Keeps (λ s. s ≡ root) (found ++ later)).holds
            s h

  -- In a legacy sweep the loop over the delivery records of missing payloads changes nothing,
  -- whether it returns or raises, so that it never writes a receipt.
  pub converge_missing-legacy :
      (seen : List String) (deliveries : List DeliveryRecord) (root : StateRoot)
      → sweep.mode ≡ legacy
      → (converge_missing sweep seen deliveries root).1 ≡ root
  converge_missing-legacy seen deliveries root m =
      (converge_missing-Keeps seen deliveries root m).holds root refl
