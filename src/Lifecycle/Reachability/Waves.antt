-- ===== src/Lifecycle/Reachability/Waves.antt =====
-- `_scan_closed_waves` of lifecycle/reachability.py.
use portable_batch_execution.Base.{
  String, Bool, not, contains, Option, none, some, List, if◌then◌else◌,
}
use portable_batch_execution.Base.Decimal.{after}
use portable_batch_execution.Base.Dict.{Dict}
use portable_batch_execution.Base.Order.{text_le}
use portable_batch_execution.Base.Sorting.{sorted}
use portable_batch_execution.Contracts.Artifact.{ArtifactRef}
use portable_batch_execution.Contracts.Datetime.{Datetime}
use portable_batch_execution.Lifecycle.Index.{
  ReachabilityIndex, protect, belongs, touch, unknown, over, coerce_utc, later_of,
}
use portable_batch_execution.Lifecycle.Root.{
  StateRoot, WaveBundle, WaveFile, holding, not_object, unreadable,
}
use portable_batch_execution.Lifecycle.Reachability.Requests.{Scan}
use portable_batch_execution.Lifecycle.Reachability.Runs.{directories}
use portable_batch_execution.Names.{is_safe_component}

-- A reference that the run's wave has: protected while the run is live.
unfoldable pub note_wave_ref :
    String → Bool → Datetime → ArtifactRef → ReachabilityIndex → ReachabilityIndex
note_wave_ref run_id live when ref i =
    let noted = touch ref.sha256 when (belongs ref.sha256 run_id i) in
    if live then protect ref.sha256 (after "closed_wave_input:" run_id) noted else noted

-- A shard of a bundle that is not valid as a whole.
unfoldable pub note_salvaged :
    String
    → String
    → Bool
    → Datetime
    → Option (List ArtifactRef)
    → ReachabilityIndex
    → ReachabilityIndex
note_salvaged file run_id live when none i = unknown (after "closed wave shard invalid: " file) i
note_salvaged file run_id live when (some refs) i = over (note_wave_ref run_id live when) refs i

-- `_closed_wave_observed_reference_time`
unfoldable pub observed_reference_time : Datetime → Datetime → Datetime
observed_reference_time job_created_at mtime = later_of (coerce_utc job_created_at) mtime

unfoldable pub note_bundle :
    String → String → Bool → Datetime → WaveBundle → ReachabilityIndex → ReachabilityIndex
note_bundle file run_id live mtime bundle i = elim bundle.validated [
  | some (created, (input, shard_refs)) ↦
      let when = observed_reference_time created mtime in
      over (λ refs. over (note_wave_ref run_id live when) refs) shard_refs
        (note_wave_ref run_id live when input i)
  | none ↦ elim bundle.job [
    | none ↦ unknown (after "closed wave job invalid: " file) i
    | some (created, input) ↦
        let when = observed_reference_time created mtime in
        over (note_salvaged file run_id live when) bundle.shards
          (note_wave_ref run_id live when input i)
  ]
]

unfoldable pub note_wave_file :
    String → Bool → String × WaveFile → ReachabilityIndex → ReachabilityIndex
note_wave_file run_id live (name, file) i = elim file.content [
  | unreadable ↦ unknown (after "closed wave unreadable: " (after name ".wave.json")) i
  | not_object ↦ unknown (after "closed wave invalid: " (after name ".wave.json")) i
  | holding bundle ↦ note_bundle (after name ".wave.json") run_id live file.mtime bundle i
]

wave_le : String × WaveFile → String × WaveFile → Bool
wave_le (i, v) (j, w) = text_le (after i ".wave.json") (after j ".wave.json")

unfoldable pub note_wave_run :
    List String → String × Dict WaveFile → ReachabilityIndex → ReachabilityIndex
unfolding wave_le
note_wave_run live_run_ids (run_id, waves) i =
    if not (is_safe_component run_id)
    then unknown (after "invalid closed wave run directory: " run_id) i
    else over (note_wave_file run_id (contains live_run_ids run_id)) (sorted wave_le waves) i

unfoldable pub scan_closed_waves : StateRoot → Scan → ReachabilityIndex
scan_closed_waves root s =
    over (note_wave_run s.live_run_ids) (directories root.closed_waves) s.index
