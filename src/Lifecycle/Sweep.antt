-- ===== src/Lifecycle/Sweep.antt =====
-- What lifecycle/gc.py decides about one payload: whether a sweep may collect it, and why not.
use portable_batch_execution.Base.{
  ℕ, ◌-◌, ◌*◌, String, Bool, true, false, not, ◌&&◌, ◌==◌, any, select, map, to_set, leb, truthy,
  Option, none, some, List, [], ◌∷◌, ◌++◌, if◌then◌else◌, Outcome, ok, raise, file_not_found,
  type_error, ◌>>=◌,
}
use portable_batch_execution.Base.Decimal.{after, padded}
use portable_batch_execution.Base.Dict.{Dict, get, put}
use portable_batch_execution.Base.Int.{ℤ, pos, negsuc}
use portable_batch_execution.Base.Order.{text_le}
use portable_batch_execution.Base.Sorting.{sorted}
use portable_batch_execution.Contracts.Attempt.{is_empty}
use portable_batch_execution.Contracts.Datetime.{Datetime, second, datetime_lt, add_micros, moment}
use portable_batch_execution.Kernel.Ranges.{timedelta}
use portable_batch_execution.Lifecycle.Index.{ReachabilityIndex, coerce_utc, later_of}
use portable_batch_execution.Lifecycle.Records.{
  BrokerRequestState, DeliveryRecord, LifecyclePolicy, digest_hex, is_transport_output,
}
use portable_batch_execution.Lifecycle.Root.{StateRoot, RequestFile, PayloadFile}

pub data GcMode : Type 0 where
  normal legacy : GcMode

-- `_SweepState`, without the root and the lists that the plan fills
pub record Sweep : Type 0 where
  pub index : ReachabilityIndex
  pub delivery_by_request : Dict DeliveryRecord
  pub delivery_by_digest : Dict DeliveryRecord
  pub policy : LifecyclePolicy
  pub now : Datetime
  pub mode : GcMode

-- `{item.request_id: item for item in deliveries}`: the last record of a request counts.
unfoldable pub by_request_onto : Dict DeliveryRecord → List DeliveryRecord → Dict DeliveryRecord
by_request_onto d [] = d
by_request_onto d (x ∷ xs) = by_request_onto (put d x.request_id x) xs

-- `_deliveries_by_digest`: the first record of a digest counts.
unfoldable pub by_digest_onto : Dict DeliveryRecord → List DeliveryRecord → Dict DeliveryRecord
by_digest_onto d [] = d
by_digest_onto d (x ∷ xs) =
    let fresh : Dict DeliveryRecord = elim (get d x.artifact_digest) [
      | none ↦ put d x.artifact_digest x
      | some _ ↦ d
    ] in
    by_digest_onto fresh xs

-- `artifact_payload_path`, looked up
abbrev pub payload_file : StateRoot → String → Option PayloadFile
payload_file root digest = get root.artifacts (digest_hex digest)

unfoldable pub has_output : String → BrokerRequestState → Bool
has_output digest state = elim state.output_sha256 [
  | none ↦ false
  | some d ↦ (d == digest) && is_transport_output state.status
]

-- The requests in the files whose output in transport is the digest.
unfoldable pub stored_requests : String → Dict RequestFile → List String
stored_requests digest [] = []
stored_requests digest ((name, file) ∷ files) =
    let rest = stored_requests digest files in
    elim file.content [
      | some state ↦ if has_output digest state then state.request_id ∷ rest else rest
      | none ↦ rest
    ]

-- `_broker_requests_for_digest`
unfoldable pub broker_requests_for_digest : StateRoot → ReachabilityIndex → String → List String
broker_requests_for_digest root index digest = sorted text_le (
    to_set (
      map (λ (request_id, output). request_id)
        (select (λ (request_id, output). output == digest) index.broker_outputs)
      ++ stored_requests digest root.requests))

-- `sweep.now < when + interval`
unfoldable pub is_pending : Sweep → Datetime → ℕ → Outcome Bool
is_pending sweep when interval = do due ← add_micros when interval; datetime_lt sweep.now due

-- The loop of `_normal_eligible`: every request has been delivered, long enough ago.
unfoldable pub all_delivered : Sweep → ℕ → List String → Outcome Bool
all_delivered sweep grace [] = ok true
all_delivered sweep grace (request_id ∷ rest) = elim (get sweep.delivery_by_request request_id) [
  | none ↦ ok false
  | some delivery ↦ do
    let later = all_delivered sweep grace rest
    pending ← is_pending sweep (coerce_utc delivery.delivered_at) grace
    if pending then ok false else later
]

unfoldable pub normal_eligible : StateRoot → Sweep → String → Outcome Bool
normal_eligible root sweep digest =
    let request_ids = broker_requests_for_digest root sweep.index digest in
    if is_empty request_ids
    then ok false
    else timedelta (sweep.policy.delivery_grace_seconds * second) >>= λ grace.
        all_delivered sweep grace request_ids

-- `_legacy_effective_last_use`
unfoldable pub legacy_effective_last_use : Sweep → String → Option PayloadFile → Outcome Datetime
legacy_effective_last_use sweep digest none = raise file_not_found
legacy_effective_last_use sweep digest (some file) =
    elim (get sweep.index.digest_last_reference_at digest) [
      | none ↦ ok file.mtime
      | some referenced ↦ ok (later_of file.mtime (coerce_utc referenced))
    ]

abbrev pub has_delivery : Sweep → String → Bool
has_delivery sweep request_id = elim (get sweep.delivery_by_request request_id) [
  | none ↦ false
  | some _ ↦ true
]

unfoldable pub legacy_eligible : StateRoot → Sweep → String → Outcome Bool
legacy_eligible root sweep digest =
    if any (has_delivery sweep) (broker_requests_for_digest root sweep.index digest)
    then ok false
    else do
      retention ← timedelta (sweep.policy.legacy_retention_seconds * second)
      last_use ← legacy_effective_last_use sweep digest (payload_file root digest)
      pending ← is_pending sweep last_use retention
      ok (not pending)

abbrev pub mode_text : GcMode → String
mode_text normal = "normal"
mode_text legacy = "legacy"

-- `_still_eligible`, for a mode as a record has it: an empty one stands for the sweep's.
unfoldable pub still_eligible : StateRoot → Sweep → String → String → Outcome Bool
still_eligible root sweep digest mode =
    let chosen = if truthy mode then mode else mode_text sweep.mode in
    if chosen == "normal"
    then normal_eligible root sweep digest
    else legacy_eligible root sweep digest

-- The requests that keep the payload in a normal sweep, with the reason for each.
unfoldable pub delivery_reasons : Sweep → ℕ → List String → Outcome (List String)
delivery_reasons sweep grace [] = ok []
delivery_reasons sweep grace (request_id ∷ rest) = elim (get sweep.delivery_by_request request_id) [
  | none ↦ do
    later ← delivery_reasons sweep grace rest
    ok (after "undelivered:" request_id ∷ later)
  | some delivery ↦ do
    pending ← is_pending sweep (coerce_utc delivery.delivered_at) grace
    later ← delivery_reasons sweep grace rest
    ok (if pending then after "grace_pending:" request_id ∷ later else later)
]

-- `tuple(reasons) or ("not_eligible",)`
abbrev pub or_not_eligible : List String → List String
or_not_eligible [] = "not_eligible" ∷ []
or_not_eligible (r ∷ rs) = r ∷ rs

unfoldable pub normal_protection_reasons : StateRoot → Sweep → String → Outcome (List String)
normal_protection_reasons root sweep digest =
    let request_ids = broker_requests_for_digest root sweep.index digest in
    if is_empty request_ids then ok ("no_broker_transport_ref" ∷ []) else do
      grace ← timedelta (sweep.policy.delivery_grace_seconds * second)
      reasons ← delivery_reasons sweep grace request_ids
      ok (or_not_eligible reasons)

unfoldable pub legacy_protection_reasons : StateRoot → Sweep → String → Outcome (List String)
legacy_protection_reasons root sweep digest = do
  let request_ids = broker_requests_for_digest root sweep.index digest
  let delivered =
      map (λ i. after "has_delivery_record:" i) (select (has_delivery sweep) request_ids)
  retention ← timedelta (sweep.policy.legacy_retention_seconds * second)
  last_use ← legacy_effective_last_use sweep digest (payload_file root digest)
  pending ← is_pending sweep last_use retention
  ok (or_not_eligible (delivered ++ (if pending then "legacy_retention_pending" ∷ [] else [])))

-- `(a - b).total_seconds()`, in microseconds
unfoldable pub age_between : Datetime → Datetime → Outcome ℤ
age_between a b = elim a.offset [
  | none ↦ raise type_error
  | some oa ↦ elim b.offset [
    | none ↦ raise type_error
    | some ob ↦
        let x = moment a.micros oa ob in
        let y = moment b.micros ob oa in ok (if leb y x then pos (x - y) else negsuc (y - x - 1))
  ]
]

-- `",".join(xs)`
unfoldable pub comma_joined : List String → String
comma_joined [] = ""
comma_joined (x ∷ []) = x
comma_joined (x ∷ y ∷ ys) = after x (after "," (comma_joined (y ∷ ys)))

-- `_policy_identity`
unfoldable pub policy_identity_of : LifecyclePolicy → String
policy_identity_of p = after "pbe.lifecycle-policy.v1:grace=" (
    after (padded 0 p.delivery_grace_seconds) (
      after ":legacy=" (
        after (padded 0 p.legacy_retention_seconds) (
          after ":refs=" (
            after (comma_joined p.authoritative_reference_files)
              (after ":roots=" (comma_joined p.authoritative_reference_roots)))))))
