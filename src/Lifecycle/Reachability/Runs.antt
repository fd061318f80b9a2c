-- ===== src/Lifecycle/Reachability/Runs.antt =====
-- The runs in `build_reachability_index`: manifests and attempts.
use portable_batch_execution.Base.{
  String, Bool, true, false, not, ◌&&◌, ◌++◌, map, to_set, contains, Option, none, some, List, [],
  ◌∷◌, if◌then◌else◌,
}
use portable_batch_execution.Base.Decimal.{after}
use portable_batch_execution.Base.Dict.{Dict, get}
use portable_batch_execution.Base.Order.{text_le}
use portable_batch_execution.Base.Sorting.{sorted}
use portable_batch_execution.Contracts.Artifact.{ArtifactRef}
use portable_batch_execution.Contracts.Attempt.{ShardAttemptRecord}
use portable_batch_execution.Contracts.Datetime.{Datetime}
use portable_batch_execution.Contracts.Manifest.{RunManifest, RunStatus}
use portable_batch_execution.Lifecycle.Index.{
  ReachabilityIndex, add_to, protect, belongs, touch, unknown, unknown_all, over, coerce_utc,
  later_of,
}
use portable_batch_execution.Lifecycle.Records.{is_terminal_request}
use portable_batch_execution.Lifecycle.Root.{StateRoot, Stored, RunFiles, holding, json_files}
use portable_batch_execution.Lifecycle.Reachability.Requests.{Scan}
use portable_batch_execution.Names.{is_safe_component}

abbrev pub run_status_text : RunStatus → String
run_status_text RunStatus.planned = "planned"
run_status_text RunStatus.running = "running"
run_status_text RunStatus.finalizing = "finalizing"
run_status_text RunStatus.succeeded = "succeeded"
run_status_text RunStatus.failed = "failed"
run_status_text RunStatus.cancelled = "cancelled"

-- `status in _TERMINAL_MANIFEST`
abbrev pub is_terminal_manifest : RunStatus → Bool
is_terminal_manifest RunStatus.succeeded = true
is_terminal_manifest RunStatus.failed = true
is_terminal_manifest RunStatus.cancelled = true
is_terminal_manifest _ = false

-- `_attempt_refs`
unfoldable pub attempt_refs : ShardAttemptRecord → List String
attempt_refs a = to_set (map (λ r. r.sha256) a.output_refs)

-- `broker_status in BROKER_TERMINAL_REQUEST_STATUSES`, where None is not
abbrev pub has_ended : Option String → Bool
has_ended none = false
has_ended (some status) = is_terminal_request status

-- The run is live by its manifest, and the broker does not say that it has ended.
abbrev pub is_live : RunManifest → Option String → Bool
is_live m broker_status = not (is_terminal_manifest m.status) && not (has_ended broker_status)

unfoldable pub note_final :
    String → Bool → Datetime → ArtifactRef → ReachabilityIndex → ReachabilityIndex
note_final run_id released when ref i =
    let noted = touch ref.sha256 when (belongs ref.sha256 run_id i) in
    if released then noted else protect ref.sha256 (after "manifest_final:" run_id) noted

unfoldable pub note_manifest : String → Option String → Bool → RunManifest → Scan → Scan
note_manifest run_id broker_status broker_owned m s =
    let live = is_live m broker_status in
    let marked =
      if live
      then protect "__run__"
          (after "manifest:" (after run_id (after ":" (run_status_text m.status)))) s.index
      else s.index in
    let when = later_of (coerce_utc m.updated_at) (coerce_utc m.created_at) in
    let released = broker_owned && is_terminal_manifest m.status && has_ended broker_status in
    record s {
      index = over (note_final run_id released when) m.final_output_refs marked;
      live_run_ids = if live then add_to s.live_run_ids run_id else s.live_run_ids;
    }

-- `manifest` is none where there is no `latest.json`.
unfoldable pub note_attempt :
    String → Bool → ShardAttemptRecord → ReachabilityIndex → ReachabilityIndex
note_attempt run_id live a i =
    let when = later_of (coerce_utc a.finished_at) (coerce_utc a.started_at) in
    over
      (λ digest j.
        let noted = touch digest when (belongs digest run_id j) in
        if live then protect digest (after "attempt:" a.attempt_id) noted else noted)
      (attempt_refs a) i

unfoldable pub note_attempts :
    String → Bool → Dict (Stored ShardAttemptRecord) → ReachabilityIndex → ReachabilityIndex
note_attempts run_id live [] i = i
note_attempts run_id live ((name, holding a) ∷ files) i =
    note_attempts run_id live files (note_attempt run_id live a i)
note_attempts run_id live ((name, refused) ∷ files) i =
    note_attempts run_id live files (unknown (after "unreadable attempt record: " name) i)

-- `_digests_from_unreadable_run`
unfoldable pub digests_from_unreadable_run : Dict (Stored ShardAttemptRecord) → List String
digests_from_unreadable_run [] = []
digests_from_unreadable_run ((name, holding a) ∷ files) =
    attempt_refs a ++ digests_from_unreadable_run files
digests_from_unreadable_run ((name, refused) ∷ files) = digests_from_unreadable_run files

-- A run with a good name: what its `latest.json` says, and its attempts.
unfoldable pub note_latest :
    String → Dict (Stored ShardAttemptRecord) → Option (Stored RunManifest) → Scan → Scan
note_latest run_id attempts none s = record s {
  index = note_attempts run_id false (json_files attempts) s.index;
}
note_latest run_id attempts (some (holding m)) s =
    let broker_status = get s.broker_terminal_by_run run_id in
    let noted = note_manifest run_id broker_status (contains s.broker_runs run_id) m s in
    record noted {
      index = note_attempts run_id (is_live m broker_status) (json_files attempts) noted.index;
    }
note_latest run_id attempts (some refused) s = record s {
  index =
      unknown_all (digests_from_unreadable_run attempts)
        (unknown (after "unreadable manifest: " run_id) s.index);
}

unfoldable pub note_run : String → RunFiles → Scan → Scan
note_run run_id run s =
    if not (is_safe_component run_id)
    then record s { index = unknown (after "invalid run directory: " run_id) s.index }
    else note_latest run_id run.attempts run.latest s

unfoldable pub note_runs : Dict RunFiles → Scan → Scan
note_runs [] s = s
note_runs ((run_id, run) ∷ runs) s = note_runs runs (note_run run_id run s)

name_le : {V : Type 0} → String × V → String × V → Bool
name_le (i, v) (j, w) = text_le i j

-- `sorted(root.iterdir())`, of directories
unfoldable pub directories : {V : Type 0} → Dict V → Dict V
unfolding name_le
directories = sorted name_le

unfoldable pub scan_runs : StateRoot → Scan → Scan
scan_runs root s = note_runs (directories root.runs) s
