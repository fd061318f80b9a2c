-- ===== src/Broker/Handle/Ended.antt =====
-- Every message about a request that has ended.
use portable_batch_execution.Base.{
  ok-injective, ap, >>=-returns, not, subst, arith, true, ◌||◌, ◌==◌, sym, none, ◌∙◌, ok, Option,
  ◌≡◌, some, String, refl,
}
use portable_batch_execution.Base.Dict.{get, Dict}
use portable_batch_execution.Base.Exec.{reading, done, Exec}
use portable_batch_execution.Base.Int.{ℤ}
use portable_batch_execution.Base.Triples.{
  knowing, ends-either, if-Triple, reading-Triple, and_then-Triple,
}
use portable_batch_execution.Broker.Deliveries.Commits.{opaque_request_id-same}
use portable_batch_execution.Broker.Handle.{
  on_admission, handle_payload, continue_with, with_state, success_from_state,
}
use portable_batch_execution.Broker.Handle.Finished.{
  reads-Leaves, success_from_state-Leaves, IsFinished, Remains, Leaves, answers-Leaves,
}
use portable_batch_execution.Broker.Requests.{matches}
use portable_batch_execution.Broker.Responses.{
  exhausted_response, failed_response, BrokerExecuteResponse,
}
use portable_batch_execution.Broker.Root.{load_request, opaque_request_id, BrokerRoot}
use portable_batch_execution.Broker.Service.{
  admitted, Admission, admit, drive_to_terminal, BrokerExecuteRequest, Service,
}
use portable_batch_execution.Contracts.Job.{Fields}
use portable_batch_execution.DataPlane.Host.{Bytes}
use portable_batch_execution.Lifecycle.Records.{RequestBinding, BrokerRequestState}
use portable_batch_execution.Lifecycle.Root.{load_record, holding, Stored}

module _ (s : BrokerRequestState) (files : Dict (Stored Fields)) (v : Service)
    (ended : ((s.status == "succeeded") || (s.status == "exhausted")) ≡ true) where
  abbrev Answers : Exec BrokerRoot (Option BrokerExecuteResponse) → Type 0
  Answers m = Leaves s files v s m

  continue_with-Leaves : (request_id : String) → Answers (continue_with v request_id s)
  unfolding continue_with
  continue_with-Leaves request_id =
      if-Triple (λ _. Remains s files) (s.status == "succeeded") (success_from_state v s) _
        (λ _. success_from_state-Leaves s files v s)
        λ other.
          if-Triple (λ _. Remains s files) (s.status == "exhausted")
            (done (some (exhausted_response s))) (drive_to_terminal v request_id s)
            (λ _. answers-Leaves s files v s _)
            λ also_other. absurd (ground (arith, other, also_other, ended))

  with_state-Leaves :
      (q : BrokerExecuteRequest) (binding : RequestBinding) (input_bytes : Bytes)
      (found : Option BrokerRequestState)
      → found ≡ some s
      → Answers (with_state v q binding input_bytes found)
  unfolding with_state
  with_state-Leaves q binding input_bytes none same = absurd (cc (same))
  with_state-Leaves q binding input_bytes (some t) same =
      let same_state : s ≡ t = cc (same) in
      subst (λ u. Answers (with_state v q binding input_bytes (some u))) same_state
        (if-Triple (λ _. Remains s files) (not (matches s.binding binding))
          (done (some (failed_response q.request_id "request_id_conflict")))
          (continue_with v q.request_id s) (λ _. answers-Leaves s files v s _)
          λ _. continue_with-Leaves q.request_id)

  on_admission-Leaves :
      (q : BrokerExecuteRequest) (admission : Admission)
      → q.request_id ≡ s.request_id
      → Answers (on_admission v q admission)
  unfolding on_admission load_request load_record
  on_admission-Leaves q (Admission.refused code) same = answers-Leaves s files v s _
  on_admission-Leaves q (admitted binding input_bytes) same =
      and_then-Triple (λ found root. (found ≡ some s) × IsFinished s files s root)
        (λ _. Remains s files) (reading λ root. load_request root q.request_id) _
        (reading-Triple (λ found root. (found ≡ some s) × IsFinished s files s root) _
          (λ root found h e. (loaded root found h e, h)) (λ root h. (s, h)))
        λ found.
          knowing (found ≡ some s) (λ _. Remains s files) _
            λ same_state. with_state-Leaves q binding input_bytes found same_state
    where
      loaded :
          (root : BrokerRoot) (found : Option BrokerRequestState)
          → IsFinished s files s root
          → load_request root q.request_id ≡ ok found
          → found ≡ some s
      loaded root found h e =
          let (name, named, e1) = >>=-returns (opaque_request_id q.request_id) _ e in
          let of_name : q.request_id ≡ name = opaque_request_id-same q.request_id name named in
          let in_file : get root.requests name ≡ some (holding s) =
            ap (get root.requests) (sym of_name ∙ same) ∙ h.stored.there in
          let both : ok (some s) ≡ ok found =
            sym (ap (load_record {A = BrokerRequestState}) in_file) ∙ e1 in
          sym (ok-injective (some s) found both)

  handle_payload-Leaves :
      (peer_uid : ℤ) (named : String) (q : BrokerExecuteRequest)
      → q.request_id ≡ s.request_id
      → Answers (handle_payload v peer_uid named (ok q))
  unfolding handle_payload
  handle_payload-Leaves peer_uid named q same =
      and_then-Triple (λ _. IsFinished s files s) (λ _. Remains s files)
        (reading λ _. admit v peer_uid q) _ (reads-Leaves s files v s _)
        λ admission. on_admission-Leaves q admission same

-- A request whose file says that it has succeeded or is exhausted: whoever asks for it again, with
-- whatever input and parameters, and whether the handler returns or raises, nothing is dispatched, and
-- its file has a state of the request with the same status.
pub handle_payload-stays_ended :
    (v : Service) (s : BrokerRequestState) (root : BrokerRoot) (peer_uid : ℤ) (named : String)
    (q : BrokerExecuteRequest)
    → get root.requests s.request_id ≡ some (holding s)
    → ((s.status == "succeeded") || (s.status == "exhausted")) ≡ true
    → q.request_id ≡ s.request_id
    → Remains s root.controller.dispatch (handle_payload v peer_uid named (ok q) root).1
handle_payload-stays_ended v s root peer_uid named q there ended same =
    ends-either (Remains s root.controller.dispatch) (handle_payload v peer_uid named (ok q) root) (
      (handle_payload-Leaves s root.controller.dispatch v ended peer_uid named q same).ends root
        (record {
          stored = record {
            there = there;
            same = record {
              same_id = refl;
              same_binding = refl;
              same_run = refl;
              same_wave = refl;
              same_shard = refl;
            };
          };
          same_status = refl;
          same_dispatches = refl;
        }))
