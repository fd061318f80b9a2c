-- ===== src/Broker/Handle/Answers.antt =====
-- Requests that handle_payload answers without touching anything.
use portable_batch_execution.Base.{
  arith, inl, ap, ◌==◌, inr, Bool-cases, ◌⊎◌, true, false, some, ◌&&◌, ok, ◌≡◌, String, refl,
}
use portable_batch_execution.Base.Exec.{done, reading, and_then}
use portable_batch_execution.Base.Int.{ℤ}
use portable_batch_execution.Broker.Config.{authorize}
use portable_batch_execution.Broker.Handle.{continue_with, with_state, on_admission, handle_payload}
use portable_batch_execution.Broker.Requests.{matches}
use portable_batch_execution.Broker.Responses.{exhausted_response, failed_response}
use portable_batch_execution.Broker.Root.{load_request, BrokerRoot}
use portable_batch_execution.Broker.Service.{
  admitted, is_allowed_operation, admit, BrokerExecuteRequest, Service,
}
use portable_batch_execution.DataPlane.Host.{Bytes}
use portable_batch_execution.Lifecycle.Records.{BrokerRequestState, RequestBinding}

module _ (v : Service) (peer_uid : ℤ) (named : String) (q : BrokerExecuteRequest) where
  -- A peer to whom the operation is not allowed, or any for an operation that is not one of the
  -- broker's, is told so, and nothing is changed.
  handle_payload-unauthorized :
      (root : BrokerRoot)
      → (is_allowed_operation q.pack q.operation && authorize v.config peer_uid q.pack q.operation)
        ≡ false
      → (code : String) × (handle_payload v peer_uid named (ok q) root
          ≡ (ok (some (failed_response q.request_id code)), root))
        × ((code ≡ "operation_not_allowed") ⊎ (code ≡ "peer_not_authorized"))
  unfolding handle_payload admit and_then reading on_admission done
  handle_payload-unauthorized root h = elim (Bool-cases (is_allowed_operation q.pack q.operation)) [
    | inr unknown ↦ ("operation_not_allowed", rw (unknown, handle_payload, admit) refl, inl refl)
    | inl known ↦
        let refused_peer : authorize v.config peer_uid q.pack q.operation ≡ false =
          ground (arith, known, h) in
        ("peer_not_authorized", rw (known, handle_payload, admit, refused_peer) refl, inr refl)
  ]

  module _ (binding : RequestBinding) (input_bytes : Bytes) (root : BrokerRoot)
      (s : BrokerRequestState) (admits : admit v peer_uid q ≡ ok (admitted binding input_bytes))
      (loaded : load_request root q.request_id ≡ ok (some s)) where
    -- A request whose identifier is taken by a request with another binding is told so, and nothing is
    -- changed.
    handle_payload-conflict :
        matches s.binding binding ≡ false
        → handle_payload v peer_uid named (ok q) root
          ≡ (ok (some (failed_response q.request_id "request_id_conflict")), root)
    unfolding handle_payload and_then reading on_admission done with_state
    handle_payload-conflict other =
        rw (admits, handle_payload, loaded, on_admission, other, with_state) refl

    -- A request whose attempts are spent is answered so for good: nothing is dispatched or changed.
    handle_payload-exhausted :
        matches s.binding binding ≡ true
        → s.status ≡ "exhausted"
        → handle_payload v peer_uid named (ok q) root ≡ (ok (some (exhausted_response s)), root)
    unfolding handle_payload and_then reading on_admission done with_state continue_with
    handle_payload-exhausted same spent =
        let not_succeeded : (s.status == "succeeded") ≡ false = ap (λ t. t == "succeeded") spent in
        let is_spent : (s.status == "exhausted") ≡ true = ap (λ t. t == "exhausted") spent in
        rw
          (
            admits, handle_payload, loaded, on_admission, same, with_state, not_succeeded,
            continue_with, is_spent,
          )
          refl
