-- ===== src/Broker/Root.antt =====
-- The state under the broker's root: the controller's, the request states by request, and the
-- delivery records; with the store of request states of broker/state.py.
use portable_batch_execution.A1Controller.{ControllerRoot}
use portable_batch_execution.Base.{
  value_error, any, length, ltb, truthy, not, ◌||◌, raise_if, ◌>>=◌, ◌>>◌, Option, ok, eqb, raise,
  Outcome, Bool, ℕ, String,
}
use portable_batch_execution.Base.Dict.{get, Dict, put}
use portable_batch_execution.Base.Exec.{Exec}
use portable_batch_execution.Base.Order.{codes}
use portable_batch_execution.Lifecycle.Records.{DeliveryRecord, BrokerRequestState}
use portable_batch_execution.Lifecycle.Root.{load_record, holding, Stored}

pub record BrokerRoot : Type 0 where
  pub controller : ControllerRoot
  pub requests : Dict (Stored BrokerRequestState)
  pub deliveries : Dict (Stored DeliveryRecord)

-- One of `/`, `\`, `?` and `#`.
is_forbidden_id : ℕ → Bool
is_forbidden_id c = eqb c b'/' || eqb c 92 || eqb c b'?' || eqb c b'#'

-- `opaque_request_id` of broker/config.py
unfoldable pub opaque_request_id : String → Outcome String
unfolding is_forbidden_id
opaque_request_id value = do
  raise_if
      (not (truthy value) || ltb 128 (length (codes value)) || any is_forbidden_id (codes value))
      (value_error "request_id must be an opaque identifier")
  ok value

-- `BrokerRequestStore.load`
unfoldable pub load_request : BrokerRoot → String → Outcome (Option BrokerRequestState)
load_request root request_id = do
  name ← opaque_request_id request_id
  load_record (get root.requests name)

unfoldable pub put_request : BrokerRoot → BrokerRequestState → BrokerRoot
put_request root s = record root { requests = put root.requests s.request_id (holding s) }

-- `BrokerRequestStore.save`
unfoldable pub save_request : BrokerRequestState → Exec BrokerRoot (Unit {0})
unfolding put_request
save_request s root = elim (opaque_request_id s.request_id) [
  | raise e ↦ (raise e, root)
  | ok _ ↦ (ok tt, put_request root s)
]

-- A step of the controller, in the broker's state.
unfoldable pub in_controller : {A : Type 0} → Exec ControllerRoot A → Exec BrokerRoot A
in_controller step root =
    let (out, controller) = step root.controller in (out, record root { controller = controller })
