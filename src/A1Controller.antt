-- ===== src/A1Controller.antt =====
-- `A1Controller` of controller/a1_controller.py: the dispatch files, the dispatch of a wave, the
-- inspection of a run and its reconciliation.
pub mod Python
pub mod History
pub mod Dispatches
pub mod Durable
use portable_batch_execution.Base.{
  String, Bool, true, false, not, ◌||◌, ◌==◌, Option, none, some, List, [], ◌∷◌, if◌then◌else◌,
  Outcome, ok, raise, value_error, type_error, raise_if, ◌>>=◌, ◌>>◌,
}
use portable_batch_execution.Base.Dict.{Dict, get, put}
use portable_batch_execution.Base.Exec.{Exec}
use portable_batch_execution.Base.Int.{ℤ}
use portable_batch_execution.Contracts.Attempt.{is_empty}
use portable_batch_execution.Contracts.Job.{Param, Fields, text, dict, field, closed_brace}
use portable_batch_execution.Contracts.Json.{or_else, set_field}
use portable_batch_execution.Contracts.Manifest.{RunManifest}
use portable_batch_execution.Contracts.Shard.{ShardSpec, WaveSpec, validate_wave}
use portable_batch_execution.DataPlane.Attempts.{Plane}
use portable_batch_execution.DataPlane.Manifests.{read_manifest}
use portable_batch_execution.DataPlane.Store.{local_store}
use portable_batch_execution.Kernel.Controller.{refresh}
use portable_batch_execution.Lifecycle.References.{lookup_field}
use portable_batch_execution.Lifecycle.Root.{Stored, holding, not_object, unreadable}
use portable_batch_execution.Names.{safe_file_component}
use portable_batch_execution.Registry.{Registry, resolve_wave, load_shards_for_run}
use Python.{Runtime}
use History.{
  BackendExecutionRef, DispatchRecord, dispatch_record, entry_history, serialize_entry,
  merged_history,
}

-- The state under the controller's root: the data plane, the closed wave registry, and the files
-- of the dispatch directory by run.
pub record ControllerRoot : Type 0 where
  pub plane : Plane
  pub registry : Registry
  pub dispatch : Dict (Stored Fields)

-- What the backend answers at one time. A raised answer is one of the errors of the backend.
pub record Backend : Type 0 where
  pub submit_wave : WaveSpec → Outcome BackendExecutionRef
  pub get_run : BackendExecutionRef → Outcome String

-- `payload.setdefault("waves", {})`
pub with_waves : Fields → Fields
with_waves state = elim (lookup_field state "waves") [
  | some _ ↦ state
  | none ↦ set_field state "waves" (dict closed_brace)
]

unfoldable pub no_dispatches : String → Fields
no_dispatches run_id =
    field "logical_run_id" (text run_id) (field "waves" (dict closed_brace) closed_brace)

-- What is in the file of a run.
unfoldable pub dispatch_content : String → Option (Stored Fields) → Outcome Fields
dispatch_content run_id none = ok (no_dispatches run_id)
dispatch_content run_id (some (holding state)) = ok (with_waves state)
dispatch_content run_id (some not_object) = raise type_error
dispatch_content run_id (some unreadable) = raise (value_error "unreadable record")

-- `_read_dispatch_state`
unfoldable pub read_dispatch_state : ControllerRoot → String → Outcome Fields
read_dispatch_state root run_id = do
  _ ← safe_file_component run_id
  dispatch_content run_id (get root.dispatch run_id)

-- `_write_dispatch_state`
pub write_dispatch_state : ControllerRoot → String → Fields → ControllerRoot
write_dispatch_state root run_id state = record root {
  dispatch = put root.dispatch run_id (holding state);
}

-- `state.get("waves", {})`, with `none` for what is no object
unfoldable pub waves_of : Fields → Option Fields
waves_of state = elim (or_else (lookup_field state "waves") (dict closed_brace)) [
  | dict waves ↦ some waves
  | _ ↦ none
]

module _ (str : Param → String) where
  -- `_record_wave_dispatch`: the dispatch state with the execution in the history of the wave
  unfoldable pub record_dispatch : Fields → String → BackendExecutionRef → Outcome Fields
  record_dispatch state wave_id execution = elim (waves_of state) [
    | none ↦ raise type_error
    | some waves ↦ do
      history ← entry_history str (lookup_field waves wave_id)
      dispatches ← merged_history history (dispatch_record execution)
      entry ← serialize_entry dispatches
      ok (set_field (with_waves state) "waves" (dict (set_field waves wave_id (dict entry))))
  ]

  unfoldable pub history_among : String → Option Fields → Outcome (List DispatchRecord)
  history_among wave_id none = ok []
  history_among wave_id (some waves) = entry_history str (lookup_field waves wave_id)

  -- The history of a wave in a dispatch state.
  unfoldable pub wave_history : String → Fields → Outcome (List DispatchRecord)
  wave_history wave_id state = history_among wave_id (waves_of state)

  unfoldable pub read_wave_dispatch_history :
      ControllerRoot → String → String → Outcome (List DispatchRecord)
  read_wave_dispatch_history root run_id wave_id = do
    _ ← safe_file_component run_id
    _ ← safe_file_component wave_id
    state ← read_dispatch_state root run_id
    wave_history wave_id state

  -- `dispatch_private_wave` up to its write: what was submitted, and the state to write
  unfoldable pub prepared_dispatch :
      Option Backend → ControllerRoot → String → String → Outcome (BackendExecutionRef × Fields)
  prepared_dispatch none root run_id wave_id =
      raise (value_error "GitHub backend is not configured")
  prepared_dispatch (some backend) root run_id wave_id = do
    bundle ← resolve_wave root.registry run_id wave_id
    wave ← validate_wave bundle.wave
    raise_if (not (wave.logical_run_id == run_id) || not (wave.wave_id == wave_id))
        (value_error "resolved wave does not match dispatch request")
    execution ← backend.submit_wave wave
    state ← read_dispatch_state root run_id
    next ← record_dispatch state wave_id execution
    ok (execution, next)

  unfoldable pub dispatch_private_wave :
      Option Backend → String → String → Exec ControllerRoot BackendExecutionRef
  dispatch_private_wave backend run_id wave_id root =
      elim (prepared_dispatch backend root run_id wave_id) [
        | raise e ↦ (raise e, root)
        | ok (execution, next) ↦ (ok execution, write_dispatch_state root run_id next)
      ]

-- `reconcile_run` up to the call of `refresh`
pub reconcile_checks : ControllerRoot → String → Outcome (RunManifest × List ShardSpec)
reconcile_checks root run_id = do
  _ ← safe_file_component run_id
  found ← read_manifest root.plane run_id
  manifest ← elim found [ none ↦ raise (value_error "run manifest not found") | some m ↦ ok m ]
  shards ← load_shards_for_run root.registry run_id
  raise_if (is_empty shards) (value_error "planned shards not found")
  ok (manifest, shards)

unfoldable pub reconcile_run : Runtime → String → Exec ControllerRoot RunManifest
reconcile_run r run_id root = elim (reconcile_checks root run_id) [
  | raise e ↦ (raise e, root)
  | ok (manifest, shards) ↦
      let (written, plane) =
        refresh (local_store r.host) root.plane manifest manifest.revision shards in
      (written, record root { plane = plane })
]
