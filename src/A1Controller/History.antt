-- ===== src/A1Controller/History.antt =====
-- The dispatch history of a wave: `_dispatch_record`, `_dispatch_metadata_match`,
-- `_normalize_wave_dispatch_history` and `_serialize_wave_dispatch_entry` of
-- controller/a1_controller.py, and the update in `_record_wave_dispatch`.
pub mod Codec
use portable_batch_execution.Base.{
  String, Bool, ◌&&◌, ◌==◌, Option, none, some, List, [], ◌∷◌, ◌++◌, if◌then◌else◌, Outcome, ok,
  raise, value_error, ◌>>=◌,
}
use portable_batch_execution.Contracts.Job.{
  Param, Params, Fields, null, text, array, dict, no_more, item, field, closed_brace,
}
use portable_batch_execution.Contracts.Json.{truthy_param, or_else}
use portable_batch_execution.Lifecycle.Deletion.{same_param}
use portable_batch_execution.Lifecycle.References.{lookup_field}

pub record BackendExecutionRef : Type 0 where
  pub backend_id : String
  pub execution_id : String
  pub web_url : Option String

-- A normalized entry, a dict of these three keys.
pub record DispatchRecord : Type 0 where
  pub backend_id : Param
  pub execution_id : String
  pub web_url : Param

abbrev pub text_or_null : Option String → Param
text_or_null none = null
text_or_null (some s) = text s

-- `_dispatch_record`
abbrev pub dispatch_record : BackendExecutionRef → DispatchRecord
dispatch_record e = record {
  backend_id = text e.backend_id;
  execution_id = e.execution_id;
  web_url = text_or_null e.web_url;
}

-- `_dispatch_metadata_match`
unfoldable pub dispatch_metadata_match : DispatchRecord → DispatchRecord → Bool
dispatch_metadata_match left right =
    same_param left.backend_id right.backend_id
    && (left.execution_id == right.execution_id)
    && same_param left.web_url right.web_url

module _ (str : Param → String) where
  -- The dict that is built of an entry with an execution.
  abbrev pub normalized : Fields → Param → DispatchRecord
  normalized fs execution = record {
    backend_id = or_else (lookup_field fs "backend_id") (text "github-actions");
    execution_id = str execution;
    web_url = or_else (lookup_field fs "web_url") null;
  }

  pub normalize_item : Param → Outcome DispatchRecord
  normalize_item p = elim p [
    | dict fs ↦
        if truthy_param (or_else (lookup_field fs "execution_id") null)
        then ok (normalized fs (or_else (lookup_field fs "execution_id") null))
        else raise (value_error "invalid dispatch history entry")
    | _ ↦ raise (value_error "invalid dispatch history entry")
  ]

  pub normalize_items : Params → Outcome (List DispatchRecord)
  normalize_items no_more = ok []
  normalize_items (item p ps) = do r ← normalize_item p; rs ← normalize_items ps; ok (r ∷ rs)

  -- An entry from before there were histories.
  pub single_dispatch : Fields → List DispatchRecord
  single_dispatch entry =
      let execution = or_else (lookup_field entry "execution_id") null in
      if truthy_param execution then normalized entry execution ∷ [] else []

  -- The history of an entry, for what it has under `dispatches`.
  pub history_in : Fields → Param → Outcome (List DispatchRecord)
  history_in entry p = elim p [ array ps ↦ normalize_items ps | _ ↦ ok (single_dispatch entry) ]

  -- `_normalize_wave_dispatch_history`
  pub normalize_history : Fields → Outcome (List DispatchRecord)
  normalize_history entry = history_in entry (or_else (lookup_field entry "dispatches") null)

  -- The history of a wave as `_record_wave_dispatch` and `read_wave_dispatch_history` look it up;
  -- that of the empty object is empty.
  unfoldable pub entry_history : Option Param → Outcome (List DispatchRecord)
  entry_history none = ok []
  entry_history (some p) = elim p [ dict entry ↦ normalize_history entry | _ ↦ ok [] ]

abbrev pub record_json : DispatchRecord → Param
record_json r = dict (
    field "backend_id" r.backend_id
      (field "execution_id" (text r.execution_id) (field "web_url" r.web_url closed_brace)))

abbrev pub history_json : List DispatchRecord → Params
history_json [] = no_more
history_json (r ∷ rs) = item (record_json r) (history_json rs)

-- `dispatches[-1]`, of a list that begins with the given record
unfoldable pub latest : DispatchRecord → List DispatchRecord → DispatchRecord
latest r [] = r
latest r (s ∷ rs) = latest s rs

abbrev pub entry_json : List DispatchRecord → DispatchRecord → Fields
entry_json dispatches last = field "dispatches" (array (history_json dispatches)) (
    field "backend_id" last.backend_id
      (field "execution_id" (text last.execution_id) (field "web_url" last.web_url closed_brace)))

-- `_serialize_wave_dispatch_entry`
unfoldable pub serialize_entry : List DispatchRecord → Outcome Fields
serialize_entry [] = raise (value_error "dispatch history cannot be empty")
serialize_entry (r ∷ rs) = ok (entry_json (r ∷ rs) (latest r rs))

-- The loop over the history in `_record_wave_dispatch`: the first entry of the execution
unfoldable pub find_execution : List DispatchRecord → String → Option DispatchRecord
find_execution [] execution_id = none
find_execution (r ∷ rs) execution_id =
    let rest = find_execution rs execution_id in
    if r.execution_id == execution_id then some r else rest

-- The history after the dispatch.
unfoldable pub merged_history : List DispatchRecord → DispatchRecord → Outcome (List DispatchRecord)
merged_history history r = elim (find_execution history r.execution_id) [
  | none ↦ ok (history ++ r ∷ [])
  | some existing ↦
      if dispatch_metadata_match existing r
      then ok history
      else raise (value_error "conflicting dispatch metadata for execution_id")
]
