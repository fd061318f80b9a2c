-- ===== src/Lifecycle/Collect/Frame.antt =====
-- What `apply_gc` leaves alone.
use portable_batch_execution.Base.{
  Bool, true, false, String, Option, none, some, Outcome-cases, ok, eq_iff, ◌≡◌, refl, ◌∙◌, ap, inl,
  inr, arith,
}
use portable_batch_execution.Base.Dict.{get, get-put, get-erase}
use portable_batch_execution.Base.Exec.{Keeps}
use portable_batch_execution.Lifecycle.Deletion.{
  may_write, put_receipt, put_intent, save_receipt, save_intent, finalize_intent, unlink_payload,
  same_receipt, same_intent,
}
use portable_batch_execution.Lifecycle.Records.{DeletionIntent, DeletionReceipt, digest_hex}
use portable_batch_execution.Lifecycle.Root.{
  StateRoot, Stored, PayloadFile, holding, not_object, unreadable,
}

-- Deliveries, holds, requests, runs and closed waves are the same, every receipt is still there as it
-- was, and no payload is new or changed.
pub record Sweeps (s0 s : StateRoot) : Type 0 where
  pub deliveries : s.deliveries ≡ s0.deliveries
  pub holds : s.holds ≡ s0.holds
  pub requests : s.requests ≡ s0.requests
  pub runs : s.runs ≡ s0.runs
  pub closed_waves : s.closed_waves ≡ s0.closed_waves
  pub receipts :
      (name : String) (r : Stored DeletionReceipt)
      → get s0.receipts name ≡ some r
      → get s.receipts name ≡ some r
  pub payloads :
      (name : String) (file : PayloadFile)
      → get s.artifacts name ≡ some file
      → get s0.artifacts name ≡ some file

pub Sweeps-refl : (s : StateRoot) → Sweeps s s
Sweeps-refl s = record {
  deliveries = refl;
  holds = refl;
  requests = refl;
  runs = refl;
  closed_waves = refl;
  receipts = λ name r h. h;
  payloads = λ name file h. h;
}

may_write-fresh :
    {A : Type 0} (same : A → Bool) (label : String) (there : Option (Stored A))
    → may_write same label there ≡ ok true
    → there ≡ none
unfolding may_write
may_write-fresh same label none h = refl
may_write-fresh same label (some (holding old)) h = ground (arith, h)
may_write-fresh same label (some not_object) h = cc
may_write-fresh same label (some unreadable) h = cc

module _ (s0 : StateRoot) where
  put_receipt-Sweeps :
      (r : DeletionReceipt) (s : StateRoot)
      → get s.receipts (digest_hex r.artifact_digest) ≡ none
      → Sweeps s0 s
      → Sweeps s0 (put_receipt r s)
  unfolding put_receipt
  put_receipt-Sweeps r s fresh h = record {
    deliveries = h.deliveries;
    holds = h.holds;
    requests = h.requests;
    runs = h.runs;
    closed_waves = h.closed_waves;
    receipts = λ name old there.
        let kept : get s.receipts name ≡ some old = h.receipts name old there in
        ground (
          arith,
          kept,
          fresh,
          get-put s.receipts (digest_hex r.artifact_digest) name (holding r),
          eq_iff (digest_hex r.artifact_digest) name,
        );
    payloads = h.payloads;
  }

  pub save_receipt-Sweeps : (r : DeletionReceipt) → Keeps (Sweeps s0) (save_receipt r)
  unfolding save_receipt
  save_receipt-Sweeps r = record {
    holds = λ s h.
        let there = get s.receipts (digest_hex r.artifact_digest) in
        elim (Outcome-cases (may_write (λ old. same_receipt old r) "deletion receipt" there)) [
          | inr (e, eq) ↦ rw (eq, save_receipt) h
          | inl (true, eq) ↦
              rw (eq, save_receipt) (put_receipt-Sweeps r s (may_write-fresh _ _ there eq) h)
          | inl (false, eq) ↦ rw (eq, save_receipt) h
        ];
  }

  -- A change of the intents only, or payloads that go.
  other-Sweeps :
      (s t : StateRoot)
      → t ≡ record s { intents = t.intents; artifacts = t.artifacts }
      → ((name : String) (file : PayloadFile)
          → get t.artifacts name ≡ some file
          → get s.artifacts name ≡ some file)
      → Sweeps s0 s
      → Sweeps s0 t
  other-Sweeps s t same fewer h = record {
    deliveries = ap (λ u. u.deliveries) same ∙ h.deliveries;
    holds = ap (λ u. u.holds) same ∙ h.holds;
    requests = ap (λ u. u.requests) same ∙ h.requests;
    runs = ap (λ u. u.runs) same ∙ h.runs;
    closed_waves = ap (λ u. u.closed_waves) same ∙ h.closed_waves;
    receipts = λ name r there. ap (λ u. get u.receipts name) same ∙ h.receipts name r there;
    payloads = λ name file there. h.payloads name file (fewer name file there);
  }

  pub save_intent-Sweeps : (i : DeletionIntent) → Keeps (Sweeps s0) (save_intent i)
  unfolding save_intent put_intent
  save_intent-Sweeps i = record {
    holds = λ s h.
        elim (Outcome-cases (
          may_write (λ old. same_intent old i) "deletion intent"
            (get s.intents (digest_hex i.artifact_digest)))) [
              | inr (e, eq) ↦ rw (eq, save_intent) h
              | inl (true, eq) ↦
                  rw (eq, save_intent) (other-Sweeps s _ refl (λ name file there. there) h)
              | inl (false, eq) ↦ rw (eq, save_intent) h
            ];
  }

  pub finalize_intent-Sweeps : (digest : String) → Keeps (Sweeps s0) (finalize_intent digest)
  unfolding finalize_intent
  finalize_intent-Sweeps digest = record {
    holds = λ s h. other-Sweeps s _ refl (λ name file there. there) h;
  }

  pub unlink_payload-Sweeps : (digest : String) → Keeps (Sweeps s0) (unlink_payload digest)
  unfolding unlink_payload
  unlink_payload-Sweeps digest = record {
    holds = λ s h.
        other-Sweeps s _ refl
          (λ name file there. ground (arith, there, get-erase s.artifacts (digest_hex digest) name))
          h;
  }
