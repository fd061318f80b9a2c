-- ===== src/Tests/Brokering.antt =====
-- The theorems on the controller and the broker at one request, which asks to sort a table.
use portable_batch_execution.A1Controller.{ControllerRoot}
use portable_batch_execution.A1Controller.Python.{IsRuntime, Runtime}
use portable_batch_execution.Base.{
  type_error, raise, eqb, ◌==◌, ◌∷◌, truthy, any, some, true, if◌then◌else◌, ◌≡◌, [], Outcome, none,
  ok, String, refl,
}
use portable_batch_execution.Base.Decimal.{after}
use portable_batch_execution.Base.Dict.{get}
use portable_batch_execution.Base.Exec.{done, try_then, reading, and_then}
use portable_batch_execution.Base.Int.{ℤ, pos}
use portable_batch_execution.Base.Order.{codes}
use portable_batch_execution.Broker.Config.{authorize, BrokerConfig}
use portable_batch_execution.Broker.Deliveries.{
  delivery_of, may_save, save_after, save_checks, output_matches, commit_of, handle_delivery_commit,
  BrokerDeliveryCommitRequest, save_new,
}
use portable_batch_execution.Broker.Deliveries.Accepted.{
  handle_delivery_commit-accepted, IsDelivered,
}
use portable_batch_execution.Broker.Deliveries.Commits.{save_new-keeps}
use portable_batch_execution.Broker.Planning.{PackModels}
use portable_batch_execution.Broker.Register.{Surroundings}
use portable_batch_execution.Broker.Requests.{from_json-to_json, to_json, from_json}
use portable_batch_execution.Broker.Responses.{accepted}
use portable_batch_execution.Broker.Root.{opaque_request_id, load_request, BrokerRoot}
use portable_batch_execution.Broker.Service.{Service, BrokerExecuteRequest}
use portable_batch_execution.Contracts.Job.{
  opaque, dict, array, float, int, bool, null, closed_brace, text, Param,
}
use portable_batch_execution.Contracts.Json.{truthy_param}
use portable_batch_execution.DataPlane.Attempts.{text_option_eq}
use portable_batch_execution.DataPlane.Host.{external, file_at, Location, Bytes}
use portable_batch_execution.DataPlane.Manifests.{read_manifest}
use portable_batch_execution.Lifecycle.Records.{BrokerRequestState, RequestBinding, DeliveryRecord}
use portable_batch_execution.Lifecycle.Root.{load_record, holding}
use portable_batch_execution.Names.{is_safe_component}
use portable_batch_execution.Tests.{noon, hex_digits}

abbrev written : Param → String
written (text s) = s
written p = "value"

abbrev integer : Param → Outcome ℤ
integer (int n) = ok n
integer p = raise type_error

abbrev pub other_digits : String
other_digits = "1123456789abcdef0123456789abcdef0123456789abcdef0123456789abcdef"

-- Payloads with an X in them have another digest than the others.
abbrev digest_of : Bytes → String
digest_of d = if any (λ c. eqb c b'X') d then other_digits else hex_digits

abbrev pub uri_of : String → String
uri_of digest = after "file:///plane/artifacts/" digest

abbrev locate : String → Location
locate uri = if uri == uri_of hex_digits then file_at true hex_digits else external

abbrev pub runtime : Runtime
runtime = record {
  host = record {
    hexdigest = digest_of;
    artifact_uri = uri_of;
    written = locate;
    resolved = locate;
  };
  str = written;
  encode = codes;
  dumps = written;
  dumps_spaced = written;
  int_of = integer;
  b64encode = λ d. "";
  b64decode = λ s. ok (codes s);
  job_json = λ j. j.job_id;
  same_job = λ a b. a.job_id == b.job_id;
}

written-truthy : (p : Param) → truthy_param p ≡ true → truthy (written p) ≡ true
unfolding truthy_param
written-truthy (text s) h = h
written-truthy null h = refl
written-truthy (bool b) h = refl
written-truthy (int n) h = refl
written-truthy (float s) h = refl
written-truthy (array ps) h = refl
written-truthy (dict fs) h = refl
written-truthy opaque h = refl

pub runtime-IsRuntime : IsRuntime runtime
runtime-IsRuntime = record {
  str-text = λ s. refl;
  int_of-int = λ n. refl;
  str-truthy = written-truthy;
}

abbrev binding : RequestBinding
binding = record {
  input_digest = hex_digits;
  pack = "tabular-batch";
  operation = "tabular.sort";
  operation_params = closed_brace;
  execution_fingerprint = hex_digits;
  public_sha = "sha";
}

abbrev pub request : BrokerRequestState
request = record {
  request_id = "request";
  binding = binding;
  logical_run_id = "run-0123456789abcdef";
  wave_id = "wave-0123456789ab";
  shard_id = "shard-000000";
  status = "active";
  execution_id = none;
  output_sha256 = none;
  output_size_bytes = none;
  output_media_type = none;
  dispatch_count = pos 0;
  last_dispatched_failure_count = pos 0;
  last_reconciled_attempt_marker = none;
}

from_json-to_json_example : from_json runtime (to_json request) ≡ ok request
from_json-to_json_example = from_json-to_json runtime runtime-IsRuntime request

abbrev pub config : BrokerConfig
config = record {
  public_sha = "sha";
  max_input_bytes = 64;
  allowed_operations_by_uid = (pos 1000, ("tabular-batch", "tabular.sort") ∷ []) ∷ [];
  static_input_bindings = [];
  model_deliveries = [];
}

abbrev pub around : Surroundings
around = record { now = noon; lock = ok tt; others = λ root. root }

abbrev pub models : PackModels
models = record { tabular_params = λ operation params. ok params }

abbrev pub service : Service
service = record {
  runtime = runtime;
  config = config;
  models = models;
  around = around;
  has_backend = true;
  turns = [];
}

abbrev pub asks : BrokerExecuteRequest
asks = record {
  request_id = "request";
  pack = "tabular-batch";
  operation = "tabular.sort";
  operation_params = closed_brace;
  input_media_type = "text/csv";
  input_b64 = "X";
}

abbrev pub no_controller : ControllerRoot
no_controller = record {
  plane = record { artifacts = []; runs = [] };
  registry = [];
  dispatch = [];
}

abbrev delivery : DeliveryRecord
delivery = record {
  request_id = "request";
  logical_run_id = "run-0123456789abcdef";
  artifact_digest = "sha256:0123456789abcdef0123456789abcdef0123456789abcdef0123456789abcdef";
  artifact_size_bytes = pos 3;
  producer_uid = null;
  consumer_uid = pos 1000;
  created_at = none;
  delivered_at = noon;
  provenance = null;
}

-- The state of the broker with one request, which is active, and a delivery record.
abbrev pub broker : BrokerRoot
broker = record {
  controller = no_controller;
  requests = ("request", holding request) ∷ [];
  deliveries = ("request", holding delivery) ∷ [];
}

save_new-keeps_example :
    get
      (save_new runtime (ok tt) (record delivery { consumer_uid = pos 2000 }) broker).1.deliveries
      "request"
    ≡ some (holding delivery)
save_new-keeps_example =
    save_new-keeps runtime (ok tt) (record delivery { consumer_uid = pos 2000 }) broker "request"
      (holding delivery) refl

-- A state in which the request has succeeded, before its delivery.
abbrev pub succeeded_request : BrokerRequestState
succeeded_request = record request {
  status = "succeeded";
  output_sha256 = some "sha256:0123456789abcdef0123456789abcdef0123456789abcdef0123456789abcdef";
  output_size_bytes = some (pos 3);
}

abbrev pub done_broker : BrokerRoot
done_broker = record broker {
  requests = ("request", holding succeeded_request) ∷ [];
  deliveries = [];
}

abbrev pub commit : BrokerDeliveryCommitRequest
commit = record {
  request_id = "request";
  output_sha256 = "sha256:0123456789abcdef0123456789abcdef0123456789abcdef0123456789abcdef";
  output_size_bytes = pos 3;
}

handle_delivery_commit-accepted_example :
    IsDelivered runtime config
      (pos 1000)
      noon
      commit
      done_broker
      (handle_delivery_commit runtime config (ok tt) (pos 1000) noon commit done_broker).1
unfolding and_then authorize commit_of delivery_of done handle_delivery_commit is_safe_component
    load_record load_request may_save opaque_request_id output_matches read_manifest reading
    save_after save_checks save_new text_option_eq try_then
handle_delivery_commit-accepted_example =
    handle_delivery_commit-accepted runtime config (ok tt) (pos 1000) noon commit done_broker
      (handle_delivery_commit runtime config (ok tt) (pos 1000) noon commit done_broker).1
      (record { request_id = "request"; status = accepted }) refl refl
