-- ===== src/Tests/Collecting.antt =====
-- The theorems on plans, on what `apply_gc` leaves alone, and on the holds, at a state root with one
-- delivered payload.
use portable_batch_execution.Base.{some, none, ok, All, [], ◌∷◌, ◌≡◌, refl}
use portable_batch_execution.Base.Dict.{get, put}
use portable_batch_execution.Base.Int.{pos}
use portable_batch_execution.Base.Order.{text_le}
use portable_batch_execution.Base.Sorting.{sorted}
use portable_batch_execution.Contracts.Datetime.{add_micros, datetime_lt}
use portable_batch_execution.Lifecycle.Apply.{apply_candidate, receipt_for}
use portable_batch_execution.Lifecycle.Apply.Deletes.{apply_candidate-deletes}
use portable_batch_execution.Lifecycle.Collect.{apply_gc, converge_missing}
use portable_batch_execution.Lifecycle.Collect.Frame.{Sweeps}
use portable_batch_execution.Lifecycle.Collect.Legacy.{converge_missing-legacy}
use portable_batch_execution.Lifecycle.Collect.Unchanged.{apply_gc-Sweeps}
use portable_batch_execution.Lifecycle.Holds.{
  is_name_code, put_hold, safe_hold_name, put_hold-replaces,
}
use portable_batch_execution.Lifecycle.Index.{coerce_utc, empty_index, is_protected}
use portable_batch_execution.Lifecycle.Plan.{
  sweep_of, plan_sweep, payload_files, report_of, collect, collected, judge, is_temporary,
  judge_unprotected, eligible_in, verdict_of, candidate_detail, effective_last_use,
}
use portable_batch_execution.Lifecycle.Plan.Candidates.{Collectable, plan_sweep-candidates}
use portable_batch_execution.Lifecycle.Reachability.Runs.{directories}
use portable_batch_execution.Lifecycle.Records.{HoldRecord, digest_hex, is_transport_output}
use portable_batch_execution.Lifecycle.Root.{holding, StateRoot, unless_stored, load_record}
use portable_batch_execution.Lifecycle.Sweep.{
  payload_file, still_eligible, Sweep, normal, legacy, by_request_onto, by_digest_onto,
  normal_eligible, broker_requests_for_digest, stored_requests, has_output, all_delivered,
  is_pending, age_between,
}
use portable_batch_execution.Tests.Lifecycle.{
  nothing_outside, policy, evening, payload, delivery, hold, root, candidate,
}

abbrev delivered_root : StateRoot
delivered_root = record root { artifacts = ("ee", payload) ∷ []; intents = [] }

abbrev sweep : Sweep
sweep = sweep_of empty_index (delivery ∷ []) policy evening normal

plan_sweep-candidates_example : All (Collectable delivered_root sweep) (candidate "sha256:ee" ∷ [])
unfolding plan_sweep payload_files is_temporary directories sorted judge is_protected unless_stored
    load_record judge_unprotected eligible_in normal_eligible broker_requests_for_digest
    stored_requests has_output is_transport_output all_delivered is_pending add_micros datetime_lt
    coerce_utc verdict_of candidate_detail effective_last_use age_between report_of collected
    digest_hex text_le by_request_onto by_digest_onto put
plan_sweep-candidates_example =
    plan_sweep-candidates delivered_root sweep
      (report_of sweep (payload_files delivered_root) (collect (candidate "sha256:ee") ∷ [])) refl

apply_gc-Sweeps_example :
    Sweeps root (apply_gc nothing_outside policy normal evening ("sha256:ee" ∷ []) root).1
apply_gc-Sweeps_example =
    apply_gc-Sweeps nothing_outside policy normal evening ("sha256:ee" ∷ []) root

abbrev legacy_sweep : Sweep
legacy_sweep = sweep_of empty_index [] policy evening legacy

-- The delivered payload is gone, and the state of its request too.
abbrev emptied_root : StateRoot
emptied_root = record delivered_root { artifacts = []; requests = [] }

converge_missing-legacy_example :
    (converge_missing legacy_sweep [] (delivery ∷ []) emptied_root).1 ≡ emptied_root
converge_missing-legacy_example =
    converge_missing-legacy legacy_sweep [] (delivery ∷ []) emptied_root refl

abbrev slashed : HoldRecord
slashed = record hold { hold_id = "case/7" }

abbrev colon : HoldRecord
colon = record hold { hold_id = "case:7"; artifact_digests = "sha256:ee" ∷ [] }

put_hold-replaces_example :
    (put_hold colon (put_hold slashed root) ≡ put_hold colon root)
    × (get (put_hold colon (put_hold slashed root)).holds (safe_hold_name slashed.hold_id)
        ≡ some (holding colon))
unfolding is_name_code
put_hold-replaces_example =
    put_hold-replaces "case" "7" "/" ":" slashed colon root refl refl refl refl

apply_candidate-deletes_example :
    ((apply_candidate sweep [] (candidate "sha256:ee") delivered_root).0
      ≡ ok (candidate "sha256:ee" ∷ []))
    × ((payload_file (apply_candidate sweep [] (candidate "sha256:ee") delivered_root).1 "sha256:ee"
          ≡ none)
        × ((get
                (apply_candidate sweep [] (candidate "sha256:ee") delivered_root).1.receipts
                (digest_hex "sha256:ee")
              ≡ some (holding (receipt_for delivered_root sweep "sha256:ee" (pos 10))))
            × (get
                  (apply_candidate sweep [] (candidate "sha256:ee") delivered_root).1.intents
                  (digest_hex "sha256:ee")
                ≡ none)))
unfolding is_protected digest_hex still_eligible normal_eligible broker_requests_for_digest
    stored_requests has_output is_transport_output sorted text_le all_delivered is_pending
    add_micros datetime_lt coerce_utc by_request_onto by_digest_onto put
apply_candidate-deletes_example =
    apply_candidate-deletes sweep [] (candidate "sha256:ee") delivered_root payload refl refl refl
      refl refl refl
