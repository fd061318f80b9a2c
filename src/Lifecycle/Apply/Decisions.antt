-- ===== src/Lifecycle/Apply/Decisions.antt =====
-- What the decisions of `apply_gc` tell of the state in which they are taken.
use portable_batch_execution.Base.{
  String, true, false, contains, none, some, Option-cases, Bool-cases, ok, >>=-returns, ◌≡◌, refl,
  sym, ◌∙◌, ap, inl, inr, ◌⊎◌, arith,
}
use portable_batch_execution.Base.Dict.{get}
use portable_batch_execution.Lifecycle.Apply.{
  delete_payload, decide_present, decide_unrecorded, decide_candidate, deletion_intent_for,
  IntentAction, abandon, finish, delete_again, decide_again, decide_unfinished, decide_intent,
}
use portable_batch_execution.Lifecycle.Index.{is_protected}
use portable_batch_execution.Lifecycle.Plan.{GcCandidate}
use portable_batch_execution.Lifecycle.Records.{DeletionIntent, DeletionReceipt, digest_hex}
use portable_batch_execution.Lifecycle.Root.{StateRoot, PayloadFile, holding, unless_stored-returns}
use portable_batch_execution.Lifecycle.Sweep.{Sweep, payload_file, still_eligible}

-- What lets a sweep delete the payload of a digest.
pub record Deletable (root : StateRoot) (sweep : Sweep) (digest mode : String) : Type 0 where
  pub unprotected : is_protected sweep.index digest ≡ false
  pub file : PayloadFile
  pub there : payload_file root digest ≡ some file
  pub eligible : still_eligible root sweep digest mode ≡ ok true

module _ (root : StateRoot) (sweep : Sweep) (c : GcCandidate) (i : DeletionIntent) where
  decide_present-delete :
      decide_present root sweep c ≡ ok (delete_payload i)
      → (still_eligible root sweep c.digest "" ≡ ok true)
        × (i ≡ deletion_intent_for root sweep c.digest c.size_bytes)
  unfolding decide_present
  decide_present-delete h =
      let (eligible, eq, rest) = >>=-returns (still_eligible root sweep c.digest "") _ h in
      elim (Bool-cases eligible) [
        | inl e ↦ ground (arith, e, eq, rest)
        | inr e ↦ ground (arith, e, eq, rest)
      ]

  decide_unrecorded-delete :
      decide_unrecorded root sweep c ≡ ok (delete_payload i)
      → Deletable root sweep c.digest ""
        × (i ≡ deletion_intent_for root sweep c.digest c.size_bytes)
  unfolding decide_unrecorded
  decide_unrecorded-delete h = elim (Bool-cases (is_protected sweep.index c.digest)) [
    | inl e ↦ ground (arith, e, h)
    | inr e ↦ elim (Bool-cases (contains sweep.index.unknown_digests c.digest)) [
      | inl f ↦ ground (arith, e, f, h)
      | inr f ↦ elim (Option-cases (payload_file root c.digest)) [
        | inl g ↦ ground (arith, e, f, g, h)
        | inr (file, g) ↦
            let held : decide_unrecorded root sweep c ≡ decide_present root sweep c =
              rw (e, f, g) refl in
            let (eligible, from) = decide_present-delete (sym held ∙ h) in
            (record { unprotected = e; file = file; there = g; eligible = eligible }, from)
      ]
    ]
  ]

  -- A deletion begins only where neither a receipt nor an intent is there.
  pub decide_candidate-delete :
      decide_candidate root sweep c ≡ ok (delete_payload i)
      → ((get root.receipts (digest_hex c.digest) ≡ none)
          × (get root.intents (digest_hex c.digest) ≡ none))
        × (Deletable root sweep c.digest ""
            × (i ≡ deletion_intent_for root sweep c.digest c.size_bytes))
  unfolding decide_candidate
  decide_candidate-delete h =
      elim (unless_stored-returns (get root.receipts (digest_hex c.digest)) _ _ _ h) [
        | inl (r, stored, wrong) ↦ cc
        | inr (no_receipt, rest) ↦
            elim (unless_stored-returns (get root.intents (digest_hex c.digest)) _ _ _ rest) [
              | inl (r, stored, wrong) ↦ cc
              | inr (no_intent, found) ↦ ((no_receipt, no_intent), decide_unrecorded-delete found)
            ]
      ]

module _ (root : StateRoot) (sweep : Sweep) (i : DeletionIntent) where
  decide_again-cases :
      (action : IntentAction) (file : PayloadFile)
      → payload_file root i.artifact_digest ≡ some file
      → is_protected sweep.index i.artifact_digest ≡ false
      → decide_again root sweep i ≡ ok action
      → (action ≡ abandon)
        ⊎ ((action ≡ delete_again) × Deletable root sweep i.artifact_digest i.mode)
  unfolding decide_again
  decide_again-cases action file g e h =
      let (eligible, eq, rest) =
        >>=-returns (still_eligible root sweep i.artifact_digest i.mode) _ h in
      elim (Bool-cases eligible) [
        | inl y ↦ inr (
          ground (arith, y, rest),
          record { unprotected = e; file = file; there = g; eligible = eq ∙ ap ok y },
        )
        | inr y ↦ inl (ground (arith, y, rest))
      ]

  decide_unfinished-cases :
      (action : IntentAction)
      → decide_unfinished root sweep i ≡ ok action
      → ((payload_file root i.artifact_digest ≡ none) × (action ≡ finish))
        ⊎ ((file : PayloadFile) × (payload_file root i.artifact_digest ≡ some file)
            × ((action ≡ abandon)
                ⊎ ((action ≡ delete_again) × Deletable root sweep i.artifact_digest i.mode)))
  unfolding decide_unfinished
  decide_unfinished-cases action h = elim (Option-cases (payload_file root i.artifact_digest)) [
    | inl g ↦ inl (g, ground (arith, g, h))
    | inr (file, g) ↦ inr (
      file,
      g,
      elim (Bool-cases (is_protected sweep.index i.artifact_digest)) [
        | inl e ↦ inl (ground (arith, e, g, h))
        | inr e ↦ elim (Bool-cases (contains sweep.index.unknown_digests i.artifact_digest)) [
          | inl f ↦ inl (ground (arith, e, f, g, h))
          | inr f ↦
              let held : decide_unfinished root sweep i ≡ decide_again root sweep i =
                rw (g, e, f, decide_unfinished) refl in
              decide_again-cases action file g e (sym held ∙ h)
        ]
      ],
    )
  ]

  -- What is done with a pending intent: it is dropped where there is a receipt or the payload is
  -- still there, finished where the payload is gone, and carried out where it may be deleted.
  pub decide_intent-cases :
      (action : IntentAction)
      → decide_intent root sweep i ≡ ok action
      → ((r : DeletionReceipt) × (get root.receipts (digest_hex i.artifact_digest)
            ≡ some (holding r))
          × (action ≡ abandon))
        ⊎ ((get root.receipts (digest_hex i.artifact_digest) ≡ none)
            × (((payload_file root i.artifact_digest ≡ none) × (action ≡ finish))
                ⊎ ((file : PayloadFile) × (payload_file root i.artifact_digest ≡ some file)
                    × ((action ≡ abandon)
                        ⊎ ((action ≡ delete_again)
                            × Deletable root sweep i.artifact_digest i.mode)))))
  unfolding decide_intent
  decide_intent-cases action h =
      elim (unless_stored-returns (get root.receipts (digest_hex i.artifact_digest)) _ _ _ h) [
        | inl (r, stored, same) ↦ inl (r, stored, sym same)
        | inr (no_receipt, rest) ↦ inr (no_receipt, decide_unfinished-cases action rest)
      ]
