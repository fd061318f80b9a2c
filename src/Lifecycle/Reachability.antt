-- ===== src/Lifecycle/Reachability.antt =====
-- `build_reachability_index` of lifecycle/reachability.py. Sets are walked in the order in which
-- their members came in.
pub mod Requests
pub mod Runs
pub mod Waves
pub mod Grows
pub mod Found
pub mod Kept
pub mod Held
pub mod Outputs
pub mod Unreadable
use portable_batch_execution.Base.{String, List, [], ◌∷◌, Option, none, some, map}
use portable_batch_execution.Base.Decimal.{after}
use portable_batch_execution.Base.Dict.{Dict}
use portable_batch_execution.Lifecycle.Index.{
  ReachabilityIndex, empty_index, protect, belongs, touch, unknown, over,
}
use portable_batch_execution.Lifecycle.Records.{DeliveryRecord, HoldRecord, LifecyclePolicy}
use portable_batch_execution.Lifecycle.References.{Outside, apply_policy_external_references}
use portable_batch_execution.Lifecycle.Root.{StateRoot, Stored, holding, json_files}
use portable_batch_execution.Lifecycle.Reachability.Requests.{Scan, scan_requests}
use portable_batch_execution.Lifecycle.Reachability.Runs.{scan_runs}
use portable_batch_execution.Lifecycle.Reachability.Waves.{scan_closed_waves}

-- The records of files that can be read, and the messages for the others.
unfoldable pub readable : {A : Type 0} → Dict (Stored A) → List A
readable [] = []
readable ((name, holding a) ∷ files) = a ∷ readable files
readable ((name, refused) ∷ files) = readable files

pub report_unreadable :
    {A : Type 0} → String → Dict (Stored A) → ReachabilityIndex → ReachabilityIndex
report_unreadable label [] i = i
report_unreadable label ((name, holding a) ∷ files) i = report_unreadable label files i
report_unreadable label ((name, refused) ∷ files) i =
    report_unreadable label files (unknown (after label (after name ".json")) i)

pub note_delivery : DeliveryRecord → ReachabilityIndex → ReachabilityIndex
note_delivery d i =
    touch d.artifact_digest d.delivered_at (belongs d.artifact_digest d.logical_run_id i)

pub note_hold : HoldRecord → ReachabilityIndex → ReachabilityIndex
note_hold h i =
    over (λ digest j. touch digest h.created_at (protect digest (after "hold:" h.hold_id) j))
      h.artifact_digests i

-- The deliveries, `_load_deliveries` with the loop after it.
pub index_deliveries : StateRoot → ReachabilityIndex
index_deliveries root =
    over note_delivery (readable (json_files root.deliveries))
      (report_unreadable "delivery record unreadable: " (json_files root.deliveries) empty_index)

abbrev pub delivered_requests : StateRoot → List String
delivered_requests root = map (λ d. d.request_id) (readable (json_files root.deliveries))

-- `_load_holds` with the loop after it
pub index_holds : StateRoot → ReachabilityIndex → ReachabilityIndex
index_holds root i =
    over note_hold (readable (json_files root.holds))
      (report_unreadable "hold record unreadable: " (json_files root.holds) i)

module _ (outside : Outside) where
  pub build_reachability_index : StateRoot → LifecyclePolicy → ReachabilityIndex
  build_reachability_index root policy =
      let requests = scan_requests root (delivered_requests root) (index_deliveries root) in
      let held = record requests { index = index_holds root requests.index } in
      let ran = scan_runs root held in
      apply_policy_external_references outside policy (scan_closed_waves root ran)
