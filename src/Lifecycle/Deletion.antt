-- ===== src/Lifecycle/Deletion.antt =====
-- The stores of lifecycle/deletion.py, `DeletionReceiptStore` and `DeletionIntentStore`.
use portable_batch_execution.Base.{
  ℕ, suc, String, Bool, true, false, ◌&&◌, ◌==◌, Option, none, some, List, [], ◌∷◌, eqb,
  if◌then◌else◌, Outcome, ok, raise, value_error, attribute_error,
}
use portable_batch_execution.Base.Decimal.{after, padded}
use portable_batch_execution.Base.Dict.{get, put, erase}
use portable_batch_execution.Base.Exec.{Exec}
use portable_batch_execution.Base.Int.{ℤ, pos, negsuc, eq_ℤ}
use portable_batch_execution.Contracts.Datetime.{Datetime, isoformat}
use portable_batch_execution.Contracts.Job.{
  Fields, Param, Params, null, text, float, int, bool, array, dict, no_more, item, field,
  closed_brace,
}
use portable_batch_execution.Lifecycle.References.{lookup_field}
use portable_batch_execution.Lifecycle.Records.{DeletionReceipt, DeletionIntent, digest_hex}
use portable_batch_execution.Lifecycle.Root.{StateRoot, Stored, holding, not_object, unreadable}

-- Python's `==` of numbers: a Boolean is the number 0 or 1. Floats are compared by their texts.
abbrev number_text : ℤ → String
number_text (pos n) = padded 0 n
number_text (negsuc n) = after "-" (padded 0 (suc n))

abbrev bool_number : Bool → ℤ
bool_number true = pos 1
bool_number false = pos 0

same_number : Param → Param → Bool
unfolding padded
same_number (int a) (int b) = eq_ℤ a b
same_number (int a) (bool b) = eq_ℤ a (bool_number b)
same_number (bool a) (int b) = eq_ℤ (bool_number a) b
same_number (bool a) (bool b) = eq_ℤ (bool_number a) (bool_number b)
same_number (float s) (float t) = s == t
same_number (float s) (int b) = s == after (number_text b) ".0"
same_number (int a) (float t) = after (number_text a) ".0" == t
same_number (float s) (bool b) = s == after (number_text (bool_number b)) ".0"
same_number (bool a) (float t) = after (number_text (bool_number a)) ".0" == t
same_number _ _ = false

abbrev field_count : Fields → ℕ
field_count closed_brace = 0
field_count (field k v fs) = suc (field_count fs)

-- Python's `==` of JSON values; the order of an object's fields does not count.
unfoldable mutual
  unfolding same_number

  pub same_param : Param → Param → Bool
  same_param null null = true
  same_param (text s) (text t) = s == t
  same_param (array ps) (array qs) = same_items ps qs
  same_param (dict fs) (dict gs) = eqb (field_count fs) (field_count gs) && same_within fs gs
  same_param p q = same_number p q

  pub same_items : Params → Params → Bool
  same_items no_more no_more = true
  same_items (item p ps) (item q qs) = same_param p q && same_items ps qs
  same_items _ _ = false

  pub same_within : Fields → Fields → Bool
  same_within closed_brace gs = true
  same_within (field k p fs) gs = elim (lookup_field gs k) [
    | none ↦ false
    | some q ↦ same_param p q && same_within fs gs
  ]

abbrev same_texts : List String → List String → Bool
same_texts [] [] = true
same_texts (s ∷ ss) (t ∷ ts) = (s == t) && same_texts ss ts
same_texts _ _ = false

abbrev same_time : Option Datetime → Option Datetime → Bool
same_time none none = true
same_time (some a) (some b) = isoformat a == isoformat b
same_time _ _ = false

-- `existing.to_json() == receipt.to_json()`
unfoldable pub same_receipt : DeletionReceipt → DeletionReceipt → Bool
unfolding same_param isoformat
same_receipt a b =
    (a.artifact_digest == b.artifact_digest)
    && eq_ℤ a.artifact_size_bytes b.artifact_size_bytes
    && same_texts a.logical_run_ids b.logical_run_ids
    && same_param a.producer_uid b.producer_uid
    && same_param a.consumer_uid b.consumer_uid
    && same_param a.provenance b.provenance
    && (isoformat a.deleted_at == isoformat b.deleted_at)
    && (a.mode == b.mode)
    && (a.policy_identity == b.policy_identity)
    && same_time a.created_at b.created_at
    && same_time a.delivered_at b.delivered_at

-- `existing.to_json() == intent.to_json()`
unfoldable pub same_intent : DeletionIntent → DeletionIntent → Bool
unfolding same_param isoformat
same_intent a b =
    (a.artifact_digest == b.artifact_digest)
    && eq_ℤ a.artifact_size_bytes b.artifact_size_bytes
    && same_texts a.logical_run_ids b.logical_run_ids
    && same_param a.producer_uid b.producer_uid
    && same_param a.consumer_uid b.consumer_uid
    && same_param a.provenance b.provenance
    && (isoformat a.intended_at == isoformat b.intended_at)
    && (a.mode == b.mode)
    && (a.policy_identity == b.policy_identity)
    && same_time a.created_at b.created_at
    && same_time a.delivered_at b.delivered_at

-- `save` of both stores, for the record file that is there: whether the file is written.
unfoldable pub may_write : {A : Type 0} → (A → Bool) → String → Option (Stored A) → Outcome Bool
may_write same label none = ok true
may_write same label (some (holding old)) =
    if same old then ok false else raise (value_error (after label " conflict"))
may_write same label (some not_object) = raise attribute_error
may_write same label (some unreadable) = raise (value_error "unreadable record")

unfoldable pub put_receipt : DeletionReceipt → StateRoot → StateRoot
put_receipt r root = record root {
  receipts = put root.receipts (digest_hex r.artifact_digest) (holding r);
}

unfoldable pub put_intent : DeletionIntent → StateRoot → StateRoot
put_intent i root = record root {
  intents = put root.intents (digest_hex i.artifact_digest) (holding i);
}

-- `DeletionReceiptStore.save`
unfoldable pub save_receipt : DeletionReceipt → Exec StateRoot (Unit {0})
save_receipt r root =
    elim (may_write (λ old. same_receipt old r) "deletion receipt"
      (get root.receipts (digest_hex r.artifact_digest))) [
        | raise e ↦ (raise e, root)
        | ok fresh ↦ (ok tt, if fresh then put_receipt r root else root)
      ]

-- `DeletionIntentStore.save`
unfoldable pub save_intent : DeletionIntent → Exec StateRoot (Unit {0})
save_intent i root =
    elim (may_write (λ old. same_intent old i) "deletion intent"
      (get root.intents (digest_hex i.artifact_digest))) [
        | raise e ↦ (raise e, root)
        | ok fresh ↦ (ok tt, if fresh then put_intent i root else root)
      ]

-- `DeletionIntentStore.finalize`
unfoldable pub finalize_intent : String → Exec StateRoot (Unit {0})
finalize_intent digest root =
    (ok tt, record root { intents = erase root.intents (digest_hex digest) })

-- `path.unlink(missing_ok=True)` with `fsync_directory`, of a payload
unfoldable pub unlink_payload : String → Exec StateRoot (Unit {0})
unlink_payload digest root =
    (ok tt, record root { artifacts = erase root.artifacts (digest_hex digest) })
