-- ===== src/Broker/Drive/Stored.antt =====
-- The file of a request always holds the state that the drive has in hand, and an answer agrees
-- with it.
use portable_batch_execution.A1Controller.{ControllerRoot}
use portable_batch_execution.A1Controller.Python.{Runtime}
use portable_batch_execution.Base.{
  none, ◌∙◌, Option, eq_refl, raise, ok, inr, inl, Outcome, some, Outcome-cases, String, ◌≡◌, refl,
}
use portable_batch_execution.Base.Decimal.{after}
use portable_batch_execution.Base.Dict.{get-put, get}
use portable_batch_execution.Base.Exec.{Exec}
use portable_batch_execution.Base.Triples.{Ends, Triple}
use portable_batch_execution.Broker.Drive.{again, answered, Turned}
use portable_batch_execution.Broker.Responses.{
  failed_response, exhausted_response, succeeded_response, AttemptOutput, BrokerExecuteResponse,
}
use portable_batch_execution.Broker.Root.{
  opaque_request_id, BrokerRoot, put_request, in_controller, save_request,
}
use portable_batch_execution.Lifecycle.Records.{BrokerRequestState}
use portable_batch_execution.Lifecycle.Root.{holding}

-- The states of one request differ in what happened to it, not in what it is.
pub record IsSameRequest (s t : BrokerRequestState) : Type 0 where
  pub same_id : s.request_id ≡ t.request_id
  pub same_binding : s.binding ≡ t.binding
  pub same_run : s.logical_run_id ≡ t.logical_run_id
  pub same_wave : s.wave_id ≡ t.wave_id
  pub same_shard : s.shard_id ≡ t.shard_id

pub still :
    {s t t' : BrokerRequestState}
    → IsSameRequest s t
    → t.request_id ≡ t'.request_id
    → t.binding ≡ t'.binding
    → t.logical_run_id ≡ t'.logical_run_id
    → t.wave_id ≡ t'.wave_id
    → t.shard_id ≡ t'.shard_id
    → IsSameRequest s t'
still h id binding run wave shard = record {
  same_id = h.same_id ∙ id;
  same_binding = h.same_binding ∙ binding;
  same_run = h.same_run ∙ run;
  same_wave = h.same_wave ∙ wave;
  same_shard = h.same_shard ∙ shard;
}

-- `t` is a state of the request of `s`, and is in its file.
pub record IsStored (s t : BrokerRequestState) (root : BrokerRoot) : Type 0 where
  pub there : get root.requests t.request_id ≡ some (holding t)
  pub same : IsSameRequest s t

-- What the status of an answer says of the state: the output answered is the output stored, with its
-- own digest; a spent budget is stored; after a failure the state has the status it had.
pub data Agrees (r : Runtime) (request_id : String) (s t : BrokerRequestState)
    (answer : BrokerExecuteResponse) : Type 0 where
  succeeds :
      (o : AttemptOutput)
      → answer ≡ succeeded_response r t o
      → t.status ≡ "succeeded"
      → t.output_sha256 ≡ some o.digest
      → t.output_size_bytes ≡ some o.size_bytes
      → t.output_media_type ≡ some o.media_type
      → o.digest ≡ after "sha256:" (r.host.hexdigest o.payload)
      → Agrees r request_id s t answer
  is_spent : answer ≡ exhausted_response t → t.status ≡ "exhausted" → Agrees r request_id s t answer
  fails_with :
      (code : String)
      → answer ≡ failed_response request_id code
      → t.status ≡ s.status
      → Agrees r request_id s t answer

-- After a raised error the file holds some state of the request.
abbrev pub Left : BrokerRequestState → BrokerRoot → Type 0
Left s root = (t : BrokerRequestState) × IsStored s t root

-- The request goes on: the state in hand is stored, with the status it had.
abbrev pub InHand : BrokerRequestState → BrokerRequestState → BrokerRoot → Type 0
InHand s t root = IsStored s t root × (t.status ≡ s.status)

abbrev pub Answered :
    Runtime → String → BrokerRequestState → BrokerExecuteResponse → BrokerRoot → Type 0
Answered r request_id s answer root =
    (t : BrokerRequestState) × IsStored s t root × Agrees r request_id s t answer

abbrev pub Told : Runtime → String → BrokerRequestState → Turned → BrokerRoot → Type 0
Told r request_id s (answered answer) root = Answered r request_id s answer root
Told r request_id s (again t) root = InHand s t root

-- What the drive returns: an answer that agrees with the file, or it would go on from it.
abbrev pub Replied :
    Runtime → String → BrokerRequestState → Option BrokerExecuteResponse → BrokerRoot → Type 0
Replied r request_id s none root = (t : BrokerRequestState) × InHand s t root
Replied r request_id s (some answer) root = Answered r request_id s answer root

pub put_request-there :
    (root : BrokerRoot) (t : BrokerRequestState)
    → get (put_request root t).requests t.request_id ≡ some (holding t)
unfolding put_request
put_request-there root t =
    rw (get-put root.requests t.request_id t.request_id (holding t), eq_refl t.request_id) refl

-- A save of a state of the request, whether it returns or raises.
pub save_request-Stored :
    (s t t' : BrokerRequestState)
    → IsSameRequest s t'
    → Triple (IsStored s t) (save_request t') (λ _. IsStored s t') (Left s)
unfolding save_request
save_request-Stored s t t' same = record {
  ends = λ root h. elim (Outcome-cases (opaque_request_id t'.request_id)) [
    | inl (name, e) ↦
        rw (e, save_request) (record { there = put_request-there root t'; same = same })
    | inr (why, e) ↦ rw (e, save_request) (t, h)
  ];
}

-- A step of the controller leaves the file alone.
pub in_controller-Stored :
    {A : Type 0} (s t : BrokerRequestState) (step : Exec ControllerRoot A)
    → Triple (IsStored s t) (in_controller step) (λ _. IsStored s t) (Left s)
unfolding in_controller
in_controller-Stored {A} s t step = record {
  ends = λ root h. ended (step root.controller).0 (step root.controller).1 root h;
}
  where
    ended :
        (o : Outcome A) (c : ControllerRoot) (root : BrokerRoot)
        → IsStored s t root
        → Ends (λ _. IsStored s t) (Left s) (o, record root { controller = c })
    ended (ok a) c root h = record { there = h.there; same = h.same }
    ended (raise e) c root h = (t, record { there = h.there; same = h.same })
