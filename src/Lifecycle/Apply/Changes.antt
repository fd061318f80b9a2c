-- ===== src/Lifecycle/Apply/Changes.antt =====
-- The deletions of `apply_gc`, as changes of the state, keep the account of what is deleted.
use portable_batch_execution.Base.{String, refl, ◌∙◌, inl, inr}
use portable_batch_execution.Base.Dict.{get}
use portable_batch_execution.Lifecycle.Apply.Accounted.{
  Accounted, IsThere, put-IsThere, still_eligible_cong, put_receipt-Accounted, put_intent-Accounted,
  without_intent-Accounted, without_payload-Accounted,
}
use portable_batch_execution.Lifecycle.Apply.Decisions.{Deletable}
use portable_batch_execution.Lifecycle.Apply.Writes.{without_payload, settled}
use portable_batch_execution.Lifecycle.Deletion.{put_receipt, put_intent}
use portable_batch_execution.Lifecycle.Records.{
  DeletionIntent, DeletionReceipt, digest_hex, to_receipt,
}
use portable_batch_execution.Lifecycle.Root.{StateRoot, holding}
use portable_batch_execution.Lifecycle.Sweep.{Sweep}

module _ (Q : String → Type 0) (s0 : StateRoot) (sweep : Sweep) where
  receipt-IsThere :
      (i : DeletionIntent) (s : StateRoot)
      → IsThere
          (get (put_receipt (to_receipt i sweep.now) s).receipts (digest_hex i.artifact_digest))
  unfolding put_receipt to_receipt
  receipt-IsThere i s =
      put-IsThere s.receipts (digest_hex i.artifact_digest) (holding (to_receipt i sweep.now))

  pub settled-Accounted :
      (i : DeletionIntent) (s : StateRoot)
      → Accounted Q s0 sweep s
      → Accounted Q s0 sweep (settled sweep i s)
  unfolding to_receipt
  settled-Accounted i s h =
      without_intent-Accounted Q s0 sweep i.artifact_digest _ (inr (receipt-IsThere i s))
        (put_receipt-Accounted Q s0 sweep (to_receipt i sweep.now) s h)

  Deletable-put_intent :
      (i : DeletionIntent) (s : StateRoot) (digest mode : String)
      → Deletable s sweep digest mode
      → Deletable (put_intent i s) sweep digest mode
  unfolding put_intent
  Deletable-put_intent i s digest mode d = record {
    unprotected = d.unprotected;
    file = d.file;
    there = d.there;
    eligible = still_eligible_cong (put_intent i s) s sweep digest mode refl refl ∙ d.eligible;
  }

  Deletable-put_receipt :
      (r : DeletionReceipt) (s : StateRoot) (digest mode : String)
      → Deletable s sweep digest mode
      → Deletable (put_receipt r s) sweep digest mode
  unfolding put_receipt
  Deletable-put_receipt r s digest mode d = record {
    unprotected = d.unprotected;
    file = d.file;
    there = d.there;
    eligible = still_eligible_cong (put_receipt r s) s sweep digest mode refl refl ∙ d.eligible;
  }

  intent-IsThere :
      (i : DeletionIntent) (s : StateRoot)
      → IsThere (get (put_intent i s).intents (digest_hex i.artifact_digest))
  unfolding put_intent
  intent-IsThere i s = put-IsThere s.intents (digest_hex i.artifact_digest) (holding i)

  -- The payload of a new intent goes, with the intent still there.
  pub deleted-Accounted :
      (i : DeletionIntent) (s : StateRoot) (mode : String)
      → Q i.artifact_digest
      → Deletable s sweep i.artifact_digest mode
      → Accounted Q s0 sweep s
      → Accounted Q s0 sweep (without_payload i.artifact_digest (put_intent i s))
  deleted-Accounted i s mode known d h =
      without_payload-Accounted Q s0 sweep i.artifact_digest mode (put_intent i s) known
        (Deletable-put_intent i s i.artifact_digest mode d) (inr (intent-IsThere i s))
        (put_intent-Accounted Q s0 sweep i s h)

  -- The payload of an old intent goes, with a receipt at the end.
  pub deleted_again-Accounted :
      (i : DeletionIntent) (s : StateRoot) (mode : String)
      → Q i.artifact_digest
      → Deletable s sweep i.artifact_digest mode
      → Accounted Q s0 sweep s
      → Accounted Q s0 sweep (settled sweep i (without_payload i.artifact_digest s))
  unfolding put_receipt
  deleted_again-Accounted i s mode known d h =
      without_intent-Accounted Q s0 sweep i.artifact_digest
        (without_payload i.artifact_digest (put_receipt (to_receipt i sweep.now) s))
        (inr (receipt-IsThere i s))
        (without_payload-Accounted Q s0 sweep i.artifact_digest mode _ known
          (Deletable-put_receipt (to_receipt i sweep.now) s i.artifact_digest mode d)
          (inl (receipt-IsThere i s))
          (put_receipt-Accounted Q s0 sweep (to_receipt i sweep.now) s h))
