-- ===== src/Lifecycle/Apply/Accounted.antt =====
-- What every write of `apply_gc` keeps of the state: no payload is lost that a sweep may not delete.
use portable_batch_execution.Base.{
  String, Option, none, Bool-cases, ◌==◌, eq_iff, ◌≡◌, ◌≢◌, ◌⊎◌, refl, sym, ◌∙◌, ap, subst, inl,
  inr, arith,
}
use portable_batch_execution.Base.Dict.{Dict, get, put, erase, get-put, get-erase}
use portable_batch_execution.Lifecycle.Apply.Decisions.{Deletable}
use portable_batch_execution.Lifecycle.Apply.Writes.{without_intent, without_payload}
use portable_batch_execution.Lifecycle.Deletion.{put_receipt, put_intent}
use portable_batch_execution.Lifecycle.Records.{DeletionIntent, DeletionReceipt, digest_hex}
use portable_batch_execution.Lifecycle.Root.{StateRoot, holding}
use portable_batch_execution.Lifecycle.Sweep.{
  Sweep, payload_file, still_eligible, normal_eligible, legacy_eligible, broker_requests_for_digest,
}

abbrev pub IsThere : {A : Type 0} → Option A → Type 0
IsThere o = o ≢ none

-- A deletion receipt or intent is filed under the payload's name.
abbrev pub Recorded : StateRoot → String → Type 0
Recorded s name = IsThere (get s.receipts name) ⊎ IsThere (get s.intents name)

-- The payload of a name was deleted by right: by what the sweep knows of the state `s0`, nothing
-- protected its digest, and one of the modes let it go.
pub record Released (Q : String → Type 0) (s0 : StateRoot) (sweep : Sweep) (name : String)
    : Type 0 where
  pub digest : String
  pub known : Q digest
  pub named : digest_hex digest ≡ name
  pub mode : String
  pub deletable : Deletable s0 sweep digest mode

pub record Deleted (Q : String → Type 0) (s0 : StateRoot) (sweep : Sweep) (s : StateRoot)
    (name : String) : Type 0 where
  pub gone : get s.artifacts name ≡ none
  pub released : Released Q s0 sweep name
  pub recorded : Recorded s name

pub record Accounted (Q : String → Type 0) (s0 : StateRoot) (sweep : Sweep) (s : StateRoot)
    : Type 0 where
  pub requests_kept : s.requests ≡ s0.requests
  pub payloads :
      (name : String) → (get s.artifacts name ≡ get s0.artifacts name) ⊎ Deleted Q s0 sweep s name

pub Accounted-refl : (Q : String → Type 0) (s : StateRoot) (sweep : Sweep) → Accounted Q s sweep s
Accounted-refl Q s sweep = record { requests_kept = refl; payloads = λ name. inl refl }

put_other-IsThere :
    {V : Type 0} (entries : Dict V) (key name : String) (v : V)
    → IsThere (get entries name)
    → IsThere (get (put entries key v) name)
put_other-IsThere entries key name v h gone = h (ground (arith, get-put entries key name v, gone))

pub put-IsThere :
    {V : Type 0} (entries : Dict V) (key : String) (v : V) → IsThere (get (put entries key v) key)
put-IsThere entries key v gone = ground (arith, get-put entries key key v, eq_iff key key, gone)

erase-IsThere :
    {V : Type 0} (entries : Dict V) (key name : String)
    → key ≢ name
    → IsThere (get entries name)
    → IsThere (get (erase entries key) name)
erase-IsThere entries key name other h gone =
    h (ground (arith, get-erase entries key name, eq_iff key name, other, gone))

pub still_eligible_cong :
    (a b : StateRoot) (sweep : Sweep) (digest mode : String)
    → a.requests ≡ b.requests
    → payload_file a digest ≡ payload_file b digest
    → still_eligible a sweep digest mode ≡ still_eligible b sweep digest mode
unfolding still_eligible normal_eligible legacy_eligible broker_requests_for_digest
still_eligible_cong a b sweep digest mode p q = rw (p, q) refl

module _ (Q : String → Type 0) (s0 : StateRoot) (sweep : Sweep) where
  -- A change of the records alone, after which what was recorded still is.
  records_change :
      (s t : StateRoot)
      → t.requests ≡ s.requests
      → t.artifacts ≡ s.artifacts
      → ((name : String) → get s.artifacts name ≡ none → Recorded s name → Recorded t name)
      → Accounted Q s0 sweep s
      → Accounted Q s0 sweep t
  records_change s t requests artifacts keeps h = record {
    requests_kept = requests ∙ h.requests_kept;
    payloads = λ name.
        let same_payload : get t.artifacts name ≡ get s.artifacts name =
          ap (λ d. get d name) artifacts in
        elim (h.payloads name) [
          | inl same ↦ inl (same_payload ∙ same)
          | inr deleted ↦ inr (record {
            gone = same_payload ∙ deleted.gone;
            released = deleted.released;
            recorded = keeps name deleted.gone deleted.recorded;
          })
        ];
  }

  pub put_receipt-Accounted :
      (r : DeletionReceipt) (s : StateRoot)
      → Accounted Q s0 sweep s
      → Accounted Q s0 sweep (put_receipt r s)
  unfolding put_receipt
  put_receipt-Accounted r s = records_change s _ refl refl λ name gone recorded. elim recorded [
    | inl receipt ↦ inl (put_other-IsThere s.receipts _ name (holding r) receipt)
    | inr intent ↦ inr intent
  ]

  pub put_intent-Accounted :
      (i : DeletionIntent) (s : StateRoot)
      → Accounted Q s0 sweep s
      → Accounted Q s0 sweep (put_intent i s)
  unfolding put_intent
  put_intent-Accounted i s = records_change s _ refl refl λ name gone recorded. elim recorded [
    | inl receipt ↦ inl receipt
    | inr intent ↦ inr (put_other-IsThere s.intents _ name (holding i) intent)
  ]

  -- An intent may end where its payload is there, or its receipt.
  Recorded-without_intent :
      (digest name : String) (s : StateRoot)
      → IsThere (payload_file s digest) ⊎ IsThere (get s.receipts (digest_hex digest))
      → get s.artifacts name ≡ none
      → Recorded s name
      → Recorded (without_intent digest s) name
  Recorded-without_intent digest name s why gone (inl receipt) = inl receipt
  Recorded-without_intent digest name s (inl there) gone (inr intent) = inr (
      erase-IsThere s.intents (digest_hex digest) name
        (λ same. there (ap (get s.artifacts) same ∙ gone)) intent)
  Recorded-without_intent digest name s (inr receipt) gone (inr intent) =
      elim (Bool-cases (digest_hex digest == name)) [
        | inl e ↦ inl (λ none_there.
            receipt (ap (get s.receipts) ((eq_iff (digest_hex digest) name).0 e) ∙ none_there))
        | inr e ↦ inr (
            erase-IsThere s.intents (digest_hex digest) name
              (λ same. ground (arith, eq_iff (digest_hex digest) name, e, same)) intent)
      ]

  pub without_intent-Accounted :
      (digest : String) (s : StateRoot)
      → IsThere (payload_file s digest) ⊎ IsThere (get s.receipts (digest_hex digest))
      → Accounted Q s0 sweep s
      → Accounted Q s0 sweep (without_intent digest s)
  without_intent-Accounted digest s why =
      records_change s _ refl refl λ name. Recorded-without_intent digest name s why

  -- A payload that is still there can be deleted now if it could at first.
  Deletable-first :
      (digest mode : String) (s : StateRoot)
      → Accounted Q s0 sweep s
      → Deletable s sweep digest mode
      → Deletable s0 sweep digest mode
  Deletable-first digest mode s h d = elim (h.payloads (digest_hex digest)) [
    | inr deleted ↦ cc
    | inl same ↦ record {
      unprotected = d.unprotected;
      file = d.file;
      there = sym same ∙ d.there;
      eligible = sym (still_eligible_cong s s0 sweep digest mode h.requests_kept same) ∙ d.eligible;
    }
  ]

  pub without_payload-Accounted :
      (digest mode : String) (s : StateRoot)
      → Q digest
      → Deletable s sweep digest mode
      → Recorded s (digest_hex digest)
      → Accounted Q s0 sweep s
      → Accounted Q s0 sweep (without_payload digest s)
  without_payload-Accounted digest mode s known deletable recorded h = record {
    requests_kept = h.requests_kept;
    payloads = λ name. elim (Bool-cases (digest_hex digest == name)) [
      | inl e ↦ inr (record {
        gone = ground (arith, e, get-erase s.artifacts (digest_hex digest) name);
        released = record {
          digest = digest;
          known = known;
          named = (eq_iff (digest_hex digest) name).0 e;
          mode = mode;
          deletable = Deletable-first digest mode s h deletable;
        };
        recorded = subst (Recorded s) ((eq_iff (digest_hex digest) name).0 e) recorded;
      })
      | inr e ↦
          let kept : get (erase s.artifacts (digest_hex digest)) name ≡ get s.artifacts name =
            ground (arith, e, get-erase s.artifacts (digest_hex digest) name) in
          elim (h.payloads name) [
            | inl same ↦ inl (kept ∙ same)
            | inr deleted ↦ inr (record {
              gone = kept ∙ deleted.gone;
              released = deleted.released;
              recorded = deleted.recorded;
            })
          ]
    ];
  }
