-- ===== src/Lifecycle/Apply/Writes.antt =====
-- What the writes of `apply_gc` leave, where the records that they make are not there yet.
use portable_batch_execution.Base.{
  Bool-cases, String, List, [], ◌∷◌, contains, if◌then◌else◌, raise, runtime_error, inl, inr,
  String, none, ok, ◌≡◌, refl,
}
use portable_batch_execution.Base.Dict.{get, erase}
use portable_batch_execution.Base.Exec.{done, fail, and_then}
use portable_batch_execution.Lifecycle.Apply.{perform_candidate, delete_payload, settle}
use portable_batch_execution.Lifecycle.Deletion.{
  unlink_payload, may_write, put_receipt, put_intent, save_receipt, save_intent, finalize_intent,
}
use portable_batch_execution.Lifecycle.Plan.{GcCandidate}
use portable_batch_execution.Lifecycle.Records.{
  DeletionIntent, DeletionReceipt, digest_hex, to_receipt,
}
use portable_batch_execution.Lifecycle.Root.{StateRoot}
use portable_batch_execution.Lifecycle.Sweep.{Sweep}

abbrev pub without_intent : String → StateRoot → StateRoot
without_intent digest root = record root { intents = erase root.intents (digest_hex digest) }

abbrev pub without_payload : String → StateRoot → StateRoot
without_payload digest root = record root { artifacts = erase root.artifacts (digest_hex digest) }

-- A payload deleted for an intent, with the receipt in place and the intent ended.
abbrev pub settled : Sweep → DeletionIntent → StateRoot → StateRoot
settled sweep i root = without_intent i.artifact_digest (put_receipt (to_receipt i sweep.now) root)

save_receipt-writes :
    (r : DeletionReceipt) (root : StateRoot)
    → get root.receipts (digest_hex r.artifact_digest) ≡ none
    → save_receipt r root ≡ (ok tt, put_receipt r root)
unfolding save_receipt may_write
save_receipt-writes r root h = rw (h, save_receipt) refl

save_intent-writes :
    (i : DeletionIntent) (root : StateRoot)
    → get root.intents (digest_hex i.artifact_digest) ≡ none
    → save_intent i root ≡ (ok tt, put_intent i root)
unfolding save_intent may_write
save_intent-writes i root h = rw (h, save_intent) refl

pub settle-writes :
    (sweep : Sweep) (i : DeletionIntent) (root : StateRoot)
    → get root.receipts (digest_hex i.artifact_digest) ≡ none
    → settle sweep i root ≡ (ok tt, settled sweep i root)
unfolding settle and_then finalize_intent to_receipt
settle-writes sweep i root h = rw (save_receipt-writes (to_receipt i sweep.now) root h) refl

-- A payload deleted for a new intent; the crash comes before the receipt.
pub delete_payload-writes :
    (sweep : Sweep) (crashes : List String) (c : GcCandidate) (i : DeletionIntent)
    (root : StateRoot)
    → get root.receipts (digest_hex i.artifact_digest) ≡ none
    → get root.intents (digest_hex i.artifact_digest) ≡ none
    → perform_candidate sweep crashes c (delete_payload i) root ≡ (
        if contains crashes c.digest
        then (
          raise (runtime_error "simulated crash during gc sweep"),
          without_payload c.digest (put_intent i root),
        )
        else (ok (c ∷ []), settled sweep i (without_payload c.digest (put_intent i root))))
unfolding perform_candidate and_then unlink_payload done fail put_intent
delete_payload-writes sweep crashes c i root no_receipt no_intent =
    elim (Bool-cases (contains crashes c.digest)) [
      | inl e ↦ rw (save_intent-writes i root no_intent, e) refl
      | inr e ↦
          rw
            (
              save_intent-writes i root no_intent,
              e,
              settle-writes sweep i (without_payload c.digest (put_intent i root)) no_receipt,
            )
            refl
    ]
