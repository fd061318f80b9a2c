-- ===== src/Lifecycle/Reachability/Found.antt =====
-- Each part of `build_reachability_index` adds to the index and takes nothing away.
use portable_batch_execution.Base.{String, Bool, Option, none, some, List, [], ◌∷◌}
use portable_batch_execution.Base.Dict.{Dict}
use portable_batch_execution.Contracts.Artifact.{ArtifactRef}
use portable_batch_execution.Contracts.Attempt.{ShardAttemptRecord}
use portable_batch_execution.Contracts.Datetime.{Datetime}
use portable_batch_execution.Lifecycle.Index.{protect, belongs, touch, unknown, over}
use portable_batch_execution.Lifecycle.Records.{HoldRecord}
use portable_batch_execution.Lifecycle.Reachability.{
  index_holds, note_hold, report_unreadable, readable,
}
use portable_batch_execution.Lifecycle.Reachability.Grows.{
  Grows, id-Grows, then-Grows, if-Grows, over-Grows, protect-Grows, belongs-Grows, touch-Grows,
  unknown-Grows,
}
use portable_batch_execution.Lifecycle.Reachability.Runs.{
  note_final, note_attempt, note_attempts, attempt_refs,
}
use portable_batch_execution.Lifecycle.Reachability.Waves.{note_wave_ref, note_salvaged}
use portable_batch_execution.Lifecycle.Root.{
  StateRoot, Stored, holding, not_object, unreadable, json_files,
}

pub report_unreadable-Grows :
    {A : Type 0} (label : String) (files : Dict (Stored A)) → Grows (report_unreadable label files)
unfolding report_unreadable
report_unreadable-Grows label [] = id-Grows
report_unreadable-Grows label ((name, holding a) ∷ files) = report_unreadable-Grows label files
report_unreadable-Grows label ((name, not_object) ∷ files) =
    then-Grows (unknown _) (report_unreadable label files) (unknown-Grows _)
      (report_unreadable-Grows label files)
report_unreadable-Grows label ((name, unreadable) ∷ files) =
    then-Grows (unknown _) (report_unreadable label files) (unknown-Grows _)
      (report_unreadable-Grows label files)

pub note_hold-Grows : (h : HoldRecord) → Grows (note_hold h)
unfolding note_hold
note_hold-Grows h = over-Grows _ h.artifact_digests λ digest.
    then-Grows (protect digest _) (touch digest h.created_at) (protect-Grows digest _)
      (touch-Grows digest h.created_at)

pub index_holds-Grows : (root : StateRoot) → Grows (index_holds root)
unfolding index_holds
index_holds-Grows root =
    then-Grows (report_unreadable _ (json_files root.holds))
      (over note_hold (readable (json_files root.holds)))
      (report_unreadable-Grows _ (json_files root.holds))
      (over-Grows note_hold (readable (json_files root.holds)) note_hold-Grows)

pub note_final-Grows :
    (run_id : String) (released : Bool) (when : Datetime) (ref : ArtifactRef)
    → Grows (note_final run_id released when ref)
unfolding note_final
note_final-Grows run_id released when ref =
    let noted =
      then-Grows (belongs ref.sha256 run_id) (touch ref.sha256 when)
        (belongs-Grows ref.sha256 run_id) (touch-Grows ref.sha256 when) in
    if-Grows released _ _ noted
      (then-Grows _ (protect ref.sha256 _) noted (protect-Grows ref.sha256 _))

note_attempt-Grows :
    (run_id : String) (live : Bool) (a : ShardAttemptRecord) → Grows (note_attempt run_id live a)
unfolding note_attempt
note_attempt-Grows run_id live a = over-Grows _ (attempt_refs a) λ digest.
    let noted =
      then-Grows (belongs digest run_id) (touch digest _) (belongs-Grows digest run_id)
        (touch-Grows digest _) in
    if-Grows live _ _ (then-Grows _ (protect digest _) noted (protect-Grows digest _)) noted

pub note_attempts-Grows :
    (run_id : String) (live : Bool) (files : Dict (Stored ShardAttemptRecord))
    → Grows (note_attempts run_id live files)
unfolding note_attempts
note_attempts-Grows run_id live [] = id-Grows
note_attempts-Grows run_id live ((name, holding a) ∷ files) =
    then-Grows (note_attempt run_id live a) (note_attempts run_id live files)
      (note_attempt-Grows run_id live a) (note_attempts-Grows run_id live files)
note_attempts-Grows run_id live ((name, not_object) ∷ files) =
    then-Grows (unknown _) (note_attempts run_id live files) (unknown-Grows _)
      (note_attempts-Grows run_id live files)
note_attempts-Grows run_id live ((name, unreadable) ∷ files) =
    then-Grows (unknown _) (note_attempts run_id live files) (unknown-Grows _)
      (note_attempts-Grows run_id live files)

pub note_wave_ref-Grows :
    (run_id : String) (live : Bool) (when : Datetime) (ref : ArtifactRef)
    → Grows (note_wave_ref run_id live when ref)
unfolding note_wave_ref
note_wave_ref-Grows run_id live when ref =
    let noted =
      then-Grows (belongs ref.sha256 run_id) (touch ref.sha256 when)
        (belongs-Grows ref.sha256 run_id) (touch-Grows ref.sha256 when) in
    if-Grows live _ _ (then-Grows _ (protect ref.sha256 _) noted (protect-Grows ref.sha256 _)) noted

pub note_salvaged-Grows :
    (file run_id : String) (live : Bool) (when : Datetime) (refs : Option (List ArtifactRef))
    → Grows (note_salvaged file run_id live when refs)
unfolding note_salvaged
note_salvaged-Grows file run_id live when none = unknown-Grows _
note_salvaged-Grows file run_id live when (some refs) =
    over-Grows (note_wave_ref run_id live when) refs (note_wave_ref-Grows run_id live when)
