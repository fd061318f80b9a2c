-- ===== src/Lifecycle/Apply/Deletes.antt =====
-- What a turn of `_apply_gc_candidates` does with a candidate that may go.
use portable_batch_execution.Base.{
  true, false, String, List, [], ◌∷◌, contains, none, some, ok, ◌≡◌, refl, eq_iff, ◌∙◌, arith,
}
use portable_batch_execution.Base.Dict.{get, put, get-put, get-erase}
use portable_batch_execution.Base.Exec.{and_then, reading}
use portable_batch_execution.Lifecycle.Apply.{
  delete_payload, decide_present, decide_unrecorded, decide_candidate, deletion_intent_for,
  perform_candidate, apply_candidate, receipt_for,
}
use portable_batch_execution.Lifecycle.Apply.Writes.{
  without_payload, settled, delete_payload-writes,
}
use portable_batch_execution.Lifecycle.Deletion.{put_receipt, put_intent}
use portable_batch_execution.Lifecycle.Index.{is_protected}
use portable_batch_execution.Lifecycle.Plan.{GcCandidate}
use portable_batch_execution.Lifecycle.Records.{DeletionIntent, digest_hex, to_receipt}
use portable_batch_execution.Lifecycle.Root.{
  StateRoot, PayloadFile, holding, unless_stored, load_record,
}
use portable_batch_execution.Lifecycle.Sweep.{Sweep, payload_file, still_eligible}

module _ (sweep : Sweep) (crashes : List String) (c : GcCandidate) (root : StateRoot) where
  abbrev intent : DeletionIntent
  intent = deletion_intent_for root sweep c.digest c.size_bytes

  decide_candidate-deletes :
      (file : PayloadFile)
      → get root.receipts (digest_hex c.digest) ≡ none
      → get root.intents (digest_hex c.digest) ≡ none
      → is_protected sweep.index c.digest ≡ false
      → contains sweep.index.unknown_digests c.digest ≡ false
      → payload_file root c.digest ≡ some file
      → still_eligible root sweep c.digest "" ≡ ok true
      → decide_candidate root sweep c ≡ ok (delete_payload intent)
  unfolding decide_candidate decide_unrecorded decide_present unless_stored load_record
  decide_candidate-deletes file no_receipt no_intent free certain there eligible =
      rw
        (
          no_receipt, no_intent, free, certain, there, eligible, decide_candidate, unless_stored,
          load_record,
        )
        refl

  gone :
      (i : DeletionIntent) (s : StateRoot)
      → get
          (settled sweep i (without_payload i.artifact_digest (put_intent i s))).artifacts
          (digest_hex i.artifact_digest)
        ≡ none
  unfolding put_receipt put_intent
  gone i s = ground (
    arith,
    get-erase s.artifacts (digest_hex i.artifact_digest) (digest_hex i.artifact_digest),
    eq_iff (digest_hex i.artifact_digest) (digest_hex i.artifact_digest),
  )

  ended :
      (i : DeletionIntent) (s : StateRoot)
      → get
          (settled sweep i (without_payload i.artifact_digest (put_intent i s))).intents
          (digest_hex i.artifact_digest)
        ≡ none
  unfolding put_receipt put_intent
  ended i s = ground (
    arith,
    get-erase (put s.intents (digest_hex i.artifact_digest) (holding i))
        (digest_hex i.artifact_digest) (digest_hex i.artifact_digest),
    eq_iff (digest_hex i.artifact_digest) (digest_hex i.artifact_digest),
  )

  receipted :
      (i : DeletionIntent) (s : StateRoot)
      → get
          (settled sweep i (without_payload i.artifact_digest (put_intent i s))).receipts
          (digest_hex i.artifact_digest)
        ≡ some (holding (to_receipt i sweep.now))
  unfolding put_receipt put_intent to_receipt
  receipted i s = ground (
    arith,
    get-put s.receipts (digest_hex i.artifact_digest) (digest_hex i.artifact_digest)
        (holding (to_receipt i sweep.now)),
    eq_iff (digest_hex i.artifact_digest) (digest_hex i.artifact_digest),
  )

  after_delete :
      contains crashes c.digest ≡ false
      → get root.receipts (digest_hex c.digest) ≡ none
      → get root.intents (digest_hex c.digest) ≡ none
      → perform_candidate sweep crashes c (delete_payload intent) root
        ≡ (ok (c ∷ []), settled sweep intent (without_payload c.digest (put_intent intent root)))
  unfolding deletion_intent_for
  after_delete calm no_receipt no_intent =
      delete_payload-writes sweep crashes c intent root no_receipt no_intent ∙ rw calm refl

  unprotected-certain :
      (digest : String)
      → is_protected sweep.index digest ≡ false
      → contains sweep.index.unknown_digests digest ≡ false
  unfolding is_protected
  unprotected-certain digest free = ground (arith, free)

  turn :
      (file : PayloadFile)
      → contains crashes c.digest ≡ false
      → get root.receipts (digest_hex c.digest) ≡ none
      → get root.intents (digest_hex c.digest) ≡ none
      → is_protected sweep.index c.digest ≡ false
      → payload_file root c.digest ≡ some file
      → still_eligible root sweep c.digest "" ≡ ok true
      → apply_candidate sweep crashes c root
        ≡ (ok (c ∷ []), settled sweep intent (without_payload c.digest (put_intent intent root)))
  unfolding apply_candidate and_then reading
  turn file calm no_receipt no_intent free there eligible =
      rw
        (
          decide_candidate-deletes file no_receipt no_intent free
              (unprotected-certain c.digest free) there eligible,
          apply_candidate,
        )
        (after_delete calm no_receipt no_intent)

  -- A candidate without receipt and intent, unprotected, with its payload there and eligible,
  -- and no simulated crash for it, is deleted in its turn: the turn returns it, the payload is
  -- gone, the receipt of the digest is there, and no intent is left.
  pub apply_candidate-deletes :
      (file : PayloadFile)
      → contains crashes c.digest ≡ false
      → get root.receipts (digest_hex c.digest) ≡ none
      → get root.intents (digest_hex c.digest) ≡ none
      → is_protected sweep.index c.digest ≡ false
      → payload_file root c.digest ≡ some file
      → still_eligible root sweep c.digest "" ≡ ok true
      → ((apply_candidate sweep crashes c root).0 ≡ ok (c ∷ []))
        × ((payload_file (apply_candidate sweep crashes c root).1 c.digest ≡ none)
            × ((get (apply_candidate sweep crashes c root).1.receipts (digest_hex c.digest)
                  ≡ some (holding (receipt_for root sweep c.digest c.size_bytes)))
                × (get (apply_candidate sweep crashes c root).1.intents (digest_hex c.digest)
                    ≡ none)))
  unfolding deletion_intent_for receipt_for
  apply_candidate-deletes file calm no_receipt no_intent free there eligible =
      rw (turn file calm no_receipt no_intent free there eligible)
        (refl, (gone intent root, (receipted intent root, ended intent root)))
