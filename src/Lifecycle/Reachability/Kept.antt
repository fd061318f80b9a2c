-- ===== src/Lifecycle/Reachability/Kept.antt =====
-- What is protected or uncertain after the holds is so in the whole index.
use portable_batch_execution.Base.{
  String, Bool, false, not, contains, Option, none, some, Outcome-cases, List, [], ◌∷◌, Bool-cases,
  inl, inr,
}
use portable_batch_execution.Base.Dict.{Dict}
use portable_batch_execution.Contracts.Attempt.{ShardAttemptRecord}
use portable_batch_execution.Contracts.Datetime.{Datetime}
use portable_batch_execution.Contracts.Manifest.{RunManifest}
use portable_batch_execution.Lifecycle.Index.{unknown, unknown_all, over}
use portable_batch_execution.Lifecycle.Records.{LifecyclePolicy}
use portable_batch_execution.Lifecycle.Reachability.{
  build_reachability_index, delivered_requests, index_deliveries, index_holds,
}
use portable_batch_execution.Lifecycle.Reachability.Found.{
  note_final-Grows, note_attempts-Grows, note_wave_ref-Grows, note_salvaged-Grows,
}
use portable_batch_execution.Lifecycle.Reachability.Grows.{
  Below, Below-refl, Below-trans, Grows, id-Grows, then-Grows, if-Grows, option-Grows, stored-Grows,
  over-Grows, protect-Grows, unknown-Grows, unknown_all-Grows,
}
use portable_batch_execution.Lifecycle.Reachability.Requests.{Scan, scan_requests}
use portable_batch_execution.Lifecycle.Reachability.Runs.{
  note_manifest, note_latest, note_run, note_runs, scan_runs, is_live, digests_from_unreadable_run,
  directories,
}
use portable_batch_execution.Lifecycle.Reachability.Waves.{
  note_wave_ref, note_salvaged, note_bundle, note_wave_file, note_wave_run, scan_closed_waves,
}
use portable_batch_execution.Lifecycle.References.{
  Outside, load_reference_digests, configured_reference_paths, reference_file,
  apply_policy_external_references,
}
use portable_batch_execution.Lifecycle.Root.{
  StateRoot, Stored, holding, not_object, unreadable, RunFiles, WaveBundle, WaveFile, json_files,
}
use portable_batch_execution.Names.{is_safe_component}

note_bundle-Grows :
    (file run_id : String) (live : Bool) (mtime : Datetime) (bundle : WaveBundle)
    → Grows (note_bundle file run_id live mtime bundle)
unfolding note_bundle
note_bundle-Grows file run_id live mtime bundle =
    option-Grows bundle.validated _ _
      (option-Grows bundle.job _ _ (unknown-Grows _) λ (created, input).
        then-Grows (note_wave_ref run_id live _ input) _ (note_wave_ref-Grows run_id live _ input) (
          over-Grows (note_salvaged file run_id live _) bundle.shards
            (note_salvaged-Grows file run_id live _)))
      λ (created, (input, shard_refs)).
        then-Grows (note_wave_ref run_id live _ input) _ (note_wave_ref-Grows run_id live _ input) (
          over-Grows _ shard_refs λ refs.
            over-Grows (note_wave_ref run_id live _) refs (note_wave_ref-Grows run_id live _))

note_wave_file-Grows :
    (run_id : String) (live : Bool) (file : String × WaveFile)
    → Grows (note_wave_file run_id live file)
unfolding note_wave_file
note_wave_file-Grows run_id live (name, file) =
    stored-Grows file.content _ _ _ (unknown-Grows _) (unknown-Grows _)
      (note_bundle-Grows _ run_id live file.mtime)

note_wave_run-Grows :
    (live_run_ids : List String) (run : String × Dict WaveFile)
    → Grows (note_wave_run live_run_ids run)
unfolding note_wave_run
note_wave_run-Grows live_run_ids (run_id, waves) =
    if-Grows (not (is_safe_component run_id)) _ _ (unknown-Grows _)
      (over-Grows _ _ (note_wave_file-Grows run_id (contains live_run_ids run_id)))

scan_closed_waves-Below : (root : StateRoot) (s : Scan) → Below s.index (scan_closed_waves root s)
unfolding scan_closed_waves
scan_closed_waves-Below root s =
    (over-Grows (note_wave_run s.live_run_ids) (directories root.closed_waves)
        (note_wave_run-Grows s.live_run_ids)).below
      s.index

note_manifest-Below :
    (run_id : String) (broker_status : Option String) (owned : Bool) (m : RunManifest) (s : Scan)
    → Below s.index (note_manifest run_id broker_status owned m s).index
unfolding note_manifest
note_manifest-Below run_id broker_status owned m s =
    (then-Grows _ (over _ m.final_output_refs)
        (if-Grows (is_live m broker_status) _ _ (protect-Grows "__run__" _) id-Grows)
        (over-Grows _ m.final_output_refs (note_final-Grows run_id _ _))).below
      s.index

unreadable_run-Below :
    (run_id : String) (attempts : Dict (Stored ShardAttemptRecord)) (s : Scan)
    → Below s.index (note_latest run_id attempts (some unreadable) s).index
unfolding note_latest
unreadable_run-Below run_id attempts s =
    (then-Grows (unknown _) (unknown_all (digests_from_unreadable_run attempts)) (unknown-Grows _)
        (unknown_all-Grows (digests_from_unreadable_run attempts))).below
      s.index

note_latest-Below :
    (run_id : String) (attempts : Dict (Stored ShardAttemptRecord))
    (latest : Option (Stored RunManifest)) (s : Scan)
    → Below s.index (note_latest run_id attempts latest s).index
unfolding note_latest
note_latest-Below run_id attempts none s =
    (note_attempts-Grows run_id false (json_files attempts)).below s.index
note_latest-Below run_id attempts (some (holding m)) s =
    Below-trans s.index _ _ (note_manifest-Below run_id _ _ m s)
      ((note_attempts-Grows run_id _ (json_files attempts)).below _)
note_latest-Below run_id attempts (some not_object) s = unreadable_run-Below run_id attempts s
note_latest-Below run_id attempts (some unreadable) s = unreadable_run-Below run_id attempts s

note_run-Below :
    (run_id : String) (run : RunFiles) (s : Scan) → Below s.index (note_run run_id run s).index
unfolding note_run
note_run-Below run_id run s = elim (Bool-cases (is_safe_component run_id)) [
  | inl e ↦ rw (e, note_run) (note_latest-Below run_id run.attempts run.latest s)
  | inr e ↦ rw (e, note_run) ((unknown-Grows _).below s.index)
]

note_runs-Below : (runs : Dict RunFiles) (s : Scan) → Below s.index (note_runs runs s).index
unfolding note_runs
note_runs-Below [] s = Below-refl s.index
note_runs-Below ((run_id, run) ∷ runs) s =
    Below-trans s.index (note_run run_id run s).index _ (note_run-Below run_id run s)
      (note_runs-Below runs (note_run run_id run s))

module _ (outside : Outside) where
  reference_file-Grows : (path : String) → Grows (reference_file outside path)
  unfolding reference_file
  reference_file-Grows path =
      elim (Outcome-cases (load_reference_digests (outside.contents path))) [
        | inl (digests, e) ↦ rw (e, reference_file) (over-Grows _ digests λ d. protect-Grows d _)
        | inr (err, e) ↦ rw (e, reference_file) (unknown-Grows _)
      ]

  apply_references-Grows :
      (policy : LifecyclePolicy) → Grows (apply_policy_external_references outside policy)
  unfolding apply_policy_external_references
  apply_references-Grows policy = elim (Outcome-cases (configured_reference_paths outside policy)) [
    | inl (paths, e) ↦
        rw (e, apply_policy_external_references)
          (over-Grows (reference_file outside) paths reference_file-Grows)
    | inr (err, e) ↦ rw (e, apply_policy_external_references) (unknown-Grows _)
  ]

  pub build-Below :
      (root : StateRoot) (policy : LifecyclePolicy)
      → Below
          (index_holds root
            (scan_requests root (delivered_requests root) (index_deliveries root)).index)
          (build_reachability_index outside root policy)
  unfolding build_reachability_index scan_runs
  build-Below root policy =
      let requests = scan_requests root (delivered_requests root) (index_deliveries root) in
      let held = record requests { index = index_holds root requests.index } in
      let ran = scan_runs root held in
      Below-trans held.index ran.index _ (note_runs-Below (directories root.runs) held) (
        Below-trans ran.index (scan_closed_waves root ran) _ (scan_closed_waves-Below root ran)
          ((apply_references-Grows policy).below (scan_closed_waves root ran)))
