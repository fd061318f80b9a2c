-- ===== src/Lifecycle/Reachability/Outputs.antt =====
-- The outputs that the broker's requests protect: those of live requests, and of successful ones
-- that are not delivered yet.
use portable_batch_execution.Base.{
  Option, none, some, Bool, true, false, String, List, [], ◌∷◌, any, contains, not, ◌&&◌, ◌||◌,
  ◌==◌, &&-true, Option-cases, Bool-cases, ◌≡◌, ◌∙◌, subst, inl, inr, arith, eq_iff,
}
use portable_batch_execution.Base.Dict.{Dict}
use portable_batch_execution.Lifecycle.Index.{
  ReachabilityIndex, is_protected, protect, belongs, touch, broker_output,
}
use portable_batch_execution.Lifecycle.Reachability.{build_reachability_index, delivered_requests}
use portable_batch_execution.Lifecycle.Reachability.Found.{index_holds-Grows}
use portable_batch_execution.Lifecycle.Reachability.Grows.{
  Below, Below-refl, Below-trans, Grows, id-Grows, then-Grows, if-Grows, option-Grows,
  protect-is_protected, touch-Grows, protect-Grows, belongs-Grows, broker_output-Grows,
  unknown-Grows,
}
use portable_batch_execution.Lifecycle.Reachability.Kept.{build-Below}
use portable_batch_execution.Lifecycle.Reachability.Requests.{
  Scan, output_of, protect_live, note_output, note_request, note_content, request_file,
  request_files, scan_requests,
}
use portable_batch_execution.Lifecycle.Records.{
  BrokerRequestState, LifecyclePolicy, is_terminal_request, is_transport_output,
}
use portable_batch_execution.Lifecycle.References.{Outside}
use portable_batch_execution.Lifecycle.Root.{StateRoot, RequestFile, json_files, any-json_files}

-- The state has this output.
abbrev pub has_this_output : String → BrokerRequestState → Bool
has_this_output digest state = elim (output_of state) [ none ↦ false | some d ↦ d == digest ]

abbrev pub is_live_request : BrokerRequestState → Bool
is_live_request state = not (is_terminal_request state.status)

abbrev pub awaits_delivery : List String → BrokerRequestState → Bool
awaits_delivery delivered state =
    (state.status == "succeeded") && not (contains delivered state.request_id)

abbrev pub content_keeps : List String → String → Option BrokerRequestState → Bool
content_keeps delivered digest (some state) =
    has_this_output digest state && (is_live_request state || awaits_delivery delivered state)
content_keeps delivered digest none = false

-- The file is of a request that keeps its output, the digest.
abbrev pub keeps_output : List String → String → String × RequestFile → Bool
keeps_output delivered digest (name, file) = content_keeps delivered digest file.content

protect_live-Grows : (state : BrokerRequestState) → Grows (protect_live state)
unfolding protect_live
protect_live-Grows state = option-Grows (output_of state) _ _ (protect-Grows _ _) λ d.
    then-Grows (protect "__broker_request__" _) (protect d _) (protect-Grows _ _)
      (protect-Grows d _)

note_output-Grows :
    (delivered : List String) (file : RequestFile) (state : BrokerRequestState)
    → Grows (note_output delivered file state)
unfolding note_output
note_output-Grows delivered file state = option-Grows (output_of state) _ _ id-Grows λ d.
    let noted =
      then-Grows _ (touch d file.mtime)
        (then-Grows (broker_output state.request_id d) (belongs d state.logical_run_id)
          (broker_output-Grows state.request_id d) (belongs-Grows d state.logical_run_id))
        (touch-Grows d file.mtime) in
    if-Grows (not (is_transport_output state.status)) _ _ id-Grows (
      if-Grows (awaits_delivery delivered state) _ _
        (then-Grows _ (protect d _)
          (then-Grows _ (protect "__broker_request__" _) noted (protect-Grows _ _))
          (protect-Grows d _))
        noted)

note_request-Below :
    (delivered : List String) (file : RequestFile) (state : BrokerRequestState) (s : Scan)
    → Below s.index (note_request delivered file state s).index
unfolding note_request
note_request-Below delivered file state s =
    (then-Grows _ (note_output delivered file state)
        (if-Grows (is_terminal_request state.status) _ _ id-Grows (protect_live-Grows state))
        (note_output-Grows delivered file state)).below
      s.index

content-Below :
    (delivered : List String) (name : String) (file : RequestFile)
    (content : Option BrokerRequestState) (s : Scan)
    → Below s.index (note_content delivered name file content s).index
unfolding note_content
content-Below delivered name file (some state) s = note_request-Below delivered file state s
content-Below delivered name file none s = (unknown-Grows _).below s.index

request_file-Below :
    (delivered : List String) (name : String) (file : RequestFile) (s : Scan)
    → Below s.index (request_file delivered name file s).index
unfolding request_file
request_file-Below delivered name file s = content-Below delivered name file file.content s

pub request_files-Below :
    (delivered : List String) (files : Dict RequestFile) (s : Scan)
    → Below s.index (request_files delivered files s).index
unfolding request_files
request_files-Below delivered [] s = Below-refl s.index
request_files-Below delivered ((name, file) ∷ files) s =
    Below-trans s.index _ _ (request_file-Below delivered name file s)
      (request_files-Below delivered files (request_file delivered name file s))

live-protects :
    (state : BrokerRequestState) (digest : String) (i : ReachabilityIndex)
    → has_this_output digest state ≡ true
    → is_protected (protect_live state i) digest ≡ true
unfolding protect_live
live-protects state digest i h = elim (Option-cases (output_of state)) [
  | inl e ↦ ground (arith, e, h)
  | inr (d, e) ↦
      let same : (d == digest) ≡ true = ground (arith, e, h) in
      subst (λ sought. is_protected (protect_live state i) sought ≡ true) ((eq_iff d digest).0 same)
        (rw (e, protect_live) (protect-is_protected d _ _))
]

undelivered-protects :
    (delivered : List String) (file : RequestFile) (state : BrokerRequestState) (digest : String)
    (i : ReachabilityIndex)
    → has_this_output digest state ≡ true
    → awaits_delivery delivered state ≡ true
    → is_protected (note_output delivered file state i) digest ≡ true
unfolding note_output is_transport_output
undelivered-protects delivered file state digest i h await = elim (Option-cases (output_of state)) [
  | inl e ↦ ground (arith, e, h)
  | inr (d, e) ↦
      let same : (d == digest) ≡ true = ground (arith, e, h) in
      let succeeded : (state.status == "succeeded") ≡ true = (&&-true _ _ await).0 in
      let transport : is_transport_output state.status ≡ true = ground (arith, succeeded) in
      subst (λ sought. is_protected (note_output delivered file state i) sought ≡ true)
        ((eq_iff d digest).0 same)
        (rw (e, note_output, transport, await) (protect-is_protected d _ _))
]

note_request-protects :
    (delivered : List String) (file : RequestFile) (state : BrokerRequestState) (digest : String)
    (s : Scan)
    → has_this_output digest state ≡ true
    → (is_live_request state || awaits_delivery delivered state) ≡ true
    → is_protected (note_request delivered file state s).index digest ≡ true
unfolding note_request
note_request-protects delivered file state digest s h why =
    elim (Bool-cases (is_terminal_request state.status)) [
      | inl e ↦ undelivered-protects delivered file state digest _ h (ground (arith, e, why))
      | inr e ↦
          ((note_output-Grows delivered file state).below _).protected digest
            (rw e (live-protects state digest s.index h))
    ]

content-protects :
    (delivered : List String) (digest name : String) (file : RequestFile)
    (content : Option BrokerRequestState) (s : Scan)
    → content_keeps delivered digest content ≡ true
    → is_protected (note_content delivered name file content s).index digest ≡ true
unfolding note_content
content-protects delivered digest name file (some state) s h =
    let (output, why) =
      &&-true (has_this_output digest state)
        (is_live_request state || awaits_delivery delivered state) h in
    note_request-protects delivered file state digest s output why
content-protects delivered digest name file none s h = cc

request_files-protects :
    (delivered : List String) (digest : String) (files : Dict RequestFile) (s : Scan)
    → any (keeps_output delivered digest) files ≡ true
    → is_protected (request_files delivered files s).index digest ≡ true
unfolding request_files request_file
request_files-protects delivered digest [] s h = cc
request_files-protects delivered digest ((name, file) ∷ files) s h =
    elim (Bool-cases (keeps_output delivered digest (name, file))) [
      | inl e ↦
          (request_files-Below delivered files (request_file delivered name file s)).protected
            digest (content-protects delivered digest name file file.content s e)
      | inr e ↦
          request_files-protects delivered digest files (request_file delivered name file s)
            (ground (arith, e, h))
    ]

-- If some readable request file has the digest as its output, and the request has not ended, or
-- has succeeded without a readable delivery record, then the digest is protected in the index.
pub output-is_protected :
    (outside : Outside) (root : StateRoot) (policy : LifecyclePolicy) (digest : String)
    → any (keeps_output (delivered_requests root) digest) root.requests ≡ true
    → is_protected (build_reachability_index outside root policy) digest ≡ true
unfolding scan_requests
output-is_protected outside root policy digest h =
    (build-Below outside root policy).protected digest (
      ((index_holds-Grows root).below _).protected digest (
        request_files-protects (delivered_requests root) digest (json_files root.requests) _
          (any-json_files (keeps_output (delivered_requests root) digest) root.requests ∙ h)))
