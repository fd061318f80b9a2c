-- ===== src/Lifecycle/Apply/Safety.antt =====
-- The loops of `apply_gc` keep the account of what is deleted, also where they raise.
use portable_batch_execution.Base.{
  All, true, false, String, List, [], ◌∷◌, contains, none, Bool-cases, Outcome-cases, ok, ◌≡◌, refl,
  sym, subst, inl, inr,
}
use portable_batch_execution.Base.Dict.{get}
use portable_batch_execution.Base.Exec.{
  Keeps, reading, done, and_then, done-Keeps, and_then-Keeps, read_then-Keeps, for_each-Keeps,
}
use portable_batch_execution.Lifecycle.Apply.{
  CandidateAction, pass_over, record_missing, delete_payload, decide_candidate, perform_candidate,
  apply_candidate, deletion_intent_for, IntentAction, decide_intent, perform_intent,
  converge_intent, converge_intents,
}
use portable_batch_execution.Lifecycle.Apply.Accounted.{
  Accounted-refl, Accounted, put_receipt-Accounted, without_intent-Accounted,
}
use portable_batch_execution.Lifecycle.Apply.Changes.{
  settled-Accounted, deleted-Accounted, deleted_again-Accounted,
}
use portable_batch_execution.Lifecycle.Apply.Decisions.{
  Deletable, decide_candidate-delete, decide_intent-cases,
}
use portable_batch_execution.Lifecycle.Apply.Writes.{
  without_payload, settle-writes, delete_payload-writes,
}
use portable_batch_execution.Lifecycle.Deletion.{
  may_write, put_intent, save_receipt, finalize_intent, unlink_payload, same_receipt,
}
use portable_batch_execution.Lifecycle.Plan.{GcCandidate}
use portable_batch_execution.Lifecycle.Records.{DeletionIntent, DeletionReceipt, digest_hex}
use portable_batch_execution.Lifecycle.Root.{StateRoot, list_all}
use portable_batch_execution.Lifecycle.Sweep.{Sweep}

module _ (Q : String → Type 0) (s0 : StateRoot) (sweep : Sweep) where
  pub save_receipt-Keeps : (r : DeletionReceipt) → Keeps (Accounted Q s0 sweep) (save_receipt r)
  unfolding save_receipt
  save_receipt-Keeps r = record {
    holds = λ s h.
        elim (Outcome-cases (
          may_write (λ old. same_receipt old r) "deletion receipt"
            (get s.receipts (digest_hex r.artifact_digest)))) [
              | inr (e, eq) ↦ rw (eq, save_receipt) h
              | inl (true, eq) ↦ rw (eq, save_receipt) (put_receipt-Accounted Q s0 sweep r s h)
              | inl (false, eq) ↦ rw (eq, save_receipt) h
            ];
  }

  delete_payload-Accounted :
      (crashes : List String) (c : GcCandidate) (i : DeletionIntent) (s : StateRoot)
      → c.digest ≡ i.artifact_digest
      → Q i.artifact_digest
      → (get s.receipts (digest_hex i.artifact_digest) ≡ none)
        × (get s.intents (digest_hex i.artifact_digest) ≡ none)
      → Deletable s sweep i.artifact_digest ""
      → Accounted Q s0 sweep s
      → Accounted Q s0 sweep (perform_candidate sweep crashes c (delete_payload i) s).1
  delete_payload-Accounted crashes c i s same known (no_receipt, no_intent) d h =
      let gone : Accounted Q s0 sweep (without_payload c.digest (put_intent i s)) =
        subst (λ digest. Accounted Q s0 sweep (without_payload digest (put_intent i s))) (sym same)
          (deleted-Accounted Q s0 sweep i s "" known d h) in
      rw (delete_payload-writes sweep crashes c i s no_receipt no_intent)
        (elim (Bool-cases (contains crashes c.digest)) [
          | inl e ↦ rw e gone
          | inr e ↦ rw e (settled-Accounted Q s0 sweep i _ gone)
        ])

  delete_new :
      (crashes : List String) (c : GcCandidate) (s : StateRoot)
      → Q c.digest
      → (get s.receipts (digest_hex c.digest) ≡ none) × (get s.intents (digest_hex c.digest) ≡ none)
      → Deletable s sweep c.digest ""
      → Accounted Q s0 sweep s
      → Accounted Q s0 sweep
          (perform_candidate sweep crashes c
            (delete_payload (deletion_intent_for s sweep c.digest c.size_bytes))
            s).1
  unfolding deletion_intent_for
  delete_new crashes c s known unrecorded d h =
      delete_payload-Accounted crashes c (deletion_intent_for s sweep c.digest c.size_bytes) s refl
        known unrecorded d h

  perform_candidate-Accounted :
      (crashes : List String) (c : GcCandidate) (s : StateRoot) (action : CandidateAction)
      → Q c.digest
      → decide_candidate s sweep c ≡ ok action
      → Accounted Q s0 sweep s
      → Accounted Q s0 sweep (perform_candidate sweep crashes c action s).1
  unfolding perform_candidate done
  perform_candidate-Accounted crashes c s pass_over known eq h = h
  perform_candidate-Accounted crashes c s (record_missing r) known eq h =
      (and_then-Keeps (Accounted Q s0 sweep) (save_receipt r) _ (save_receipt-Keeps r)
          λ _. done-Keeps (Accounted Q s0 sweep) (c ∷ [])).holds
        s h
  perform_candidate-Accounted crashes c s (delete_payload i) known eq h =
      let (unrecorded, (deletable, made)) = decide_candidate-delete s sweep c i eq in
      subst (λ j. Accounted Q s0 sweep (perform_candidate sweep crashes c (delete_payload j) s).1)
        (sym made) (delete_new crashes c s known unrecorded deletable h)

  pub apply_candidate-Keeps :
      (crashes : List String) (c : GcCandidate)
      → Q c.digest
      → Keeps (Accounted Q s0 sweep) (apply_candidate sweep crashes c)
  unfolding apply_candidate
  apply_candidate-Keeps crashes c known =
      read_then-Keeps (Accounted Q s0 sweep) (λ root. decide_candidate root sweep c) _
        λ s action. perform_candidate-Accounted crashes c s action known

  perform_intent-Accounted :
      (i : DeletionIntent) (s : StateRoot) (action : IntentAction)
      → Q i.artifact_digest
      → decide_intent s sweep i ≡ ok action
      → Accounted Q s0 sweep s
      → Accounted Q s0 sweep (perform_intent sweep i action s).1
  unfolding perform_intent done and_then finalize_intent unlink_payload
  perform_intent-Accounted i s action known eq h = elim (decide_intent-cases s sweep i action eq) [
    | inl (r, stored, same) ↦
        rw (same, perform_intent)
          (without_intent-Accounted Q s0 sweep i.artifact_digest s (inr λ gone. cc) h)
    | inr (no_receipt, inl (missing, same)) ↦
        rw (same, perform_intent, settle-writes sweep i s no_receipt)
          (settled-Accounted Q s0 sweep i s h)
    | inr (no_receipt, inr (file, there, inl same)) ↦
        rw (same, perform_intent)
          (without_intent-Accounted Q s0 sweep i.artifact_digest s (inl λ gone. cc) h)
    | inr (no_receipt, inr (file, there, inr (same, d))) ↦
        rw
          (
            same,
            perform_intent,
            settle-writes sweep i (without_payload i.artifact_digest s) no_receipt,
          )
          (deleted_again-Accounted Q s0 sweep i s i.mode known d h)
  ]

  converge_intent-Keeps :
      (i : DeletionIntent)
      → Q i.artifact_digest
      → Keeps (Accounted Q s0 sweep) (converge_intent sweep i)
  unfolding converge_intent
  converge_intent-Keeps i known =
      read_then-Keeps (Accounted Q s0 sweep) (λ root. decide_intent root sweep i) _
        λ s action. perform_intent-Accounted i s action known

  -- The intents that are there at first are of known digests.
  pub converge_intents-holds :
      ((intents : List DeletionIntent)
        → list_all s0.intents ≡ ok intents
        → All (λ i. Q i.artifact_digest) intents)
      → Accounted Q s0 sweep (converge_intents sweep s0).1
  unfolding converge_intents and_then reading
  converge_intents-holds known = elim (Outcome-cases (list_all s0.intents)) [
    | inr (e, eq) ↦ rw (eq, converge_intents) (Accounted-refl Q s0 sweep)
    | inl (intents, eq) ↦
        rw (eq, converge_intents)
          ((for_each-Keeps (Accounted Q s0 sweep) (λ i. Q i.artifact_digest) (converge_intent sweep)
              converge_intent-Keeps intents (known intents eq)).holds
            s0 (Accounted-refl Q s0 sweep))
  ]
