-- ===== src/Lifecycle/Reachability/Requests.antt =====
-- The broker's requests in `build_reachability_index`.
use portable_batch_execution.Base.{
  String, not, ◌&&◌, truthy, ◌==◌, contains, Option, none, some, List, [], ◌∷◌, if◌then◌else◌,
}
use portable_batch_execution.Base.Decimal.{after}
use portable_batch_execution.Base.Dict.{Dict, put}
use portable_batch_execution.Lifecycle.Index.{
  ReachabilityIndex, add_to, protect, belongs, touch, unknown, broker_output,
}
use portable_batch_execution.Lifecycle.Records.{
  BrokerRequestState, is_terminal_request, is_transport_output,
}
use portable_batch_execution.Lifecycle.Root.{StateRoot, RequestFile, json_files}

-- The local variables of the function that go from one part of it to the next.
pub record Scan : Type 0 where
  pub index : ReachabilityIndex
  pub live_run_ids : List String
  pub broker_terminal_by_run : Dict String
  pub broker_runs : List String

-- `if state.output_sha256`
unfoldable pub output_of : BrokerRequestState → Option String
output_of state = elim state.output_sha256 [
  | none ↦ none
  | some d ↦ if truthy d then some d else none
]

abbrev pub broker_label : BrokerRequestState → String
broker_label state = after "broker:" (after state.request_id (after ":" state.status))

unfoldable pub protect_live : BrokerRequestState → ReachabilityIndex → ReachabilityIndex
protect_live state i =
    let marked = protect "__broker_request__" (broker_label state) i in
    elim (output_of state) [
      | none ↦ marked
      | some d ↦ protect d (after "broker_request:" state.request_id) marked
    ]

-- An output in transport; it is kept until its delivery, if the request has succeeded.
unfoldable pub note_output :
    List String → RequestFile → BrokerRequestState → ReachabilityIndex → ReachabilityIndex
note_output delivered file state i = elim (output_of state) [
  | none ↦ i
  | some d ↦
      let noted =
        touch d file.mtime (belongs d state.logical_run_id (broker_output state.request_id d i)) in
      if not (is_transport_output state.status)
      then i
      else if (state.status == "succeeded") && not (contains delivered state.request_id)
      then protect d (after "broker_request:" state.request_id)
          (protect "__broker_request__" (broker_label state) noted)
      else noted
]

unfoldable pub note_request : List String → RequestFile → BrokerRequestState → Scan → Scan
note_request delivered file state s =
    let terminal = is_terminal_request state.status in
    record s {
      index =
          note_output delivered file state
            (if terminal then s.index else protect_live state s.index);
      live_run_ids =
          if terminal then s.live_run_ids else add_to s.live_run_ids state.logical_run_id;
      broker_terminal_by_run =
          if terminal
          then put s.broker_terminal_by_run state.logical_run_id state.status
          else s.broker_terminal_by_run;
      broker_runs = add_to s.broker_runs state.logical_run_id;
    }

unfoldable pub note_content :
    List String → String → RequestFile → Option BrokerRequestState → Scan → Scan
note_content delivered name file (some state) s = note_request delivered file state s
note_content delivered name file none s = record s {
  index = unknown (after "broker request state unreadable: " (after name ".json")) s.index;
}

unfoldable pub request_file : List String → String → RequestFile → Scan → Scan
request_file delivered name file s = note_content delivered name file file.content s

unfoldable pub request_files : List String → Dict RequestFile → Scan → Scan
request_files delivered [] s = s
request_files delivered ((name, file) ∷ files) s =
    request_files delivered files (request_file delivered name file s)

unfoldable pub scan_requests : StateRoot → List String → ReachabilityIndex → Scan
scan_requests root delivered i =
    request_files delivered (json_files root.requests)
      (record { index = i; live_run_ids = []; broker_terminal_by_run = []; broker_runs = [] })
