-- ===== src/Lifecycle/Reachability/Unreadable.antt =====
-- A record file that cannot be read makes the index uncertain.
use portable_batch_execution.Base.{
  Option-cases, Bool, true, false, String, List, [], ◌∷◌, none, some, any, ◌||◌, Bool-cases, ◌≡◌,
  ◌∙◌, inl, inr, arith,
}
use portable_batch_execution.Base.Dict.{Dict}
use portable_batch_execution.Lifecycle.Index.{belongs, is_uncertain, touch}
use portable_batch_execution.Lifecycle.Reachability.{
  build_reachability_index, delivered_requests, index_deliveries, note_delivery, readable,
}
use portable_batch_execution.Lifecycle.Reachability.Found.{index_holds-Grows}
use portable_batch_execution.Lifecycle.Reachability.Grows.{
  Grows, belongs-Grows, over-Grows, then-Grows, touch-Grows, unknown-is_uncertain,
}
use portable_batch_execution.Lifecycle.Reachability.Held.{
  is_refused, report_unreadable-uncertain, unreadable_hold-is_uncertain,
}
use portable_batch_execution.Lifecycle.Reachability.Kept.{build-Below}
use portable_batch_execution.Lifecycle.Reachability.Outputs.{request_files-Below}
use portable_batch_execution.Lifecycle.Reachability.Requests.{
  Scan, note_content, request_file, request_files, scan_requests,
}
use portable_batch_execution.Lifecycle.Records.{DeliveryRecord, LifecyclePolicy}
use portable_batch_execution.Lifecycle.References.{Outside}
use portable_batch_execution.Lifecycle.Root.{RequestFile, StateRoot, any-json_files, json_files}

-- A request's file that cannot be read.
abbrev pub is_refused_request : String × RequestFile → Bool
is_refused_request (name, file) = elim file.content [ none ↦ true | some state ↦ false ]

-- Some record of a delivery or of a hold cannot be read or is no JSON object, or a request's file holds
-- no state that can be read.
abbrev pub has_unreadable : StateRoot → Bool
has_unreadable root =
    any is_refused root.deliveries
    || any is_refused root.holds
    || any is_refused_request root.requests

note_delivery-Grows : (d : DeliveryRecord) → Grows (note_delivery d)
unfolding note_delivery
note_delivery-Grows d =
    then-Grows (belongs d.artifact_digest d.logical_run_id) (touch d.artifact_digest d.delivered_at)
      (belongs-Grows d.artifact_digest d.logical_run_id)
      (touch-Grows d.artifact_digest d.delivered_at)

content-uncertain :
    (delivered : List String) (name : String) (file : RequestFile) (s : Scan)
    → is_refused_request (name, file) ≡ true
    → is_uncertain (request_file delivered name file s).index ≡ true
unfolding request_file note_content
content-uncertain delivered name file s h = elim (Option-cases file.content) [
  | inl e ↦ rw (e, note_content) (unknown-is_uncertain _ s.index)
  | inr (state, e) ↦ absurd (ground (arith, e, h))
]

request_files-uncertain :
    (delivered : List String) (files : Dict RequestFile) (s : Scan)
    → any is_refused_request files ≡ true
    → is_uncertain (request_files delivered files s).index ≡ true
unfolding request_files
request_files-uncertain delivered [] s h = cc
request_files-uncertain delivered ((name, file) ∷ files) s h =
    elim (Bool-cases (is_refused_request (name, file))) [
      | inl e ↦
          (request_files-Below delivered files (request_file delivered name file s)).uncertain
            (content-uncertain delivered name file s e)
      | inr e ↦
          request_files-uncertain delivered files (request_file delivered name file s)
            (ground (arith, e, h))
    ]

module _ (outside : Outside) (root : StateRoot) (policy : LifecyclePolicy) where
  -- What is uncertain after the requests is so in the whole index.
  after_requests :
      is_uncertain (scan_requests root (delivered_requests root) (index_deliveries root)).index
        ≡ true
      → is_uncertain (build_reachability_index outside root policy) ≡ true
  after_requests h =
      (build-Below outside root policy).uncertain (((index_holds-Grows root).below _).uncertain h)

  unreadable_request-is_uncertain :
      any is_refused_request root.requests ≡ true
      → is_uncertain (build_reachability_index outside root policy) ≡ true
  unfolding scan_requests
  unreadable_request-is_uncertain h = after_requests (
      request_files-uncertain (delivered_requests root) (json_files root.requests) _
        (any-json_files is_refused_request root.requests ∙ h))

  unreadable_delivery-is_uncertain :
      any is_refused root.deliveries ≡ true
      → is_uncertain (build_reachability_index outside root policy) ≡ true
  unfolding scan_requests index_deliveries
  unreadable_delivery-is_uncertain h = after_requests (
      (request_files-Below (delivered_requests root) (json_files root.requests) _).uncertain (
        ((over-Grows note_delivery (readable (json_files root.deliveries))
              note_delivery-Grows).below
            _).uncertain
          (report_unreadable-uncertain _ (json_files root.deliveries) _
            (any-json_files is_refused root.deliveries ∙ h))))

  pub unreadable-is_uncertain :
      has_unreadable root ≡ true
      → is_uncertain (build_reachability_index outside root policy) ≡ true
  unreadable-is_uncertain h = elim (Bool-cases (any is_refused root.deliveries)) [
    | inl e ↦ unreadable_delivery-is_uncertain e
    | inr e ↦ elim (Bool-cases (any is_refused root.holds)) [
      | inl f ↦ unreadable_hold-is_uncertain outside root policy f
      | inr f ↦ unreadable_request-is_uncertain (ground (arith, e, f, h))
    ]
  ]
