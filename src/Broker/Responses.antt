-- ===== src/Broker/Responses.antt =====
-- `BrokerExecuteResponse` and `BrokerDeliveryCommitResponse` of broker/protocol.py, and the answers
-- that broker/service.py makes of a state.
use portable_batch_execution.A1Controller.Python.{Runtime}
use portable_batch_execution.Base.{none, some, Option, String}
use portable_batch_execution.Base.Int.{ℤ}
use portable_batch_execution.DataPlane.Host.{Bytes}
use portable_batch_execution.Lifecycle.Records.{BrokerRequestState}

pub data AnswerStatus : Type 0 where
  succeeded exhausted failed : AnswerStatus

pub record BrokerExecuteResponse : Type 0 where
  pub request_id : String
  pub status : AnswerStatus
  pub error_code : Option String
  pub logical_run_id : Option String
  pub wave_id : Option String
  pub execution_id : Option String
  pub input_digest : Option String
  pub execution_fingerprint : Option String
  pub output_media_type : Option String
  pub output_sha256 : Option String
  pub output_size_bytes : Option ℤ
  pub output_b64 : Option String

-- What `_read_attempt_output` returns.
pub record AttemptOutput : Type 0 where
  pub payload : Bytes
  pub media_type : String
  pub digest : String
  pub size_bytes : ℤ

-- `_exhausted`
unfoldable pub exhausted_response : BrokerRequestState → BrokerExecuteResponse
exhausted_response s = record {
  request_id = s.request_id;
  status = AnswerStatus.exhausted;
  error_code = some "attempt_budget_exhausted";
  logical_run_id = some s.logical_run_id;
  wave_id = some s.wave_id;
  execution_id = s.execution_id;
  input_digest = some s.binding.input_digest;
  execution_fingerprint = some s.binding.execution_fingerprint;
  output_media_type = none;
  output_sha256 = none;
  output_size_bytes = none;
  output_b64 = none;
}

-- `_failed`
unfoldable pub failed_response : String → String → BrokerExecuteResponse
failed_response request_id error_code = record {
  request_id = request_id;
  status = AnswerStatus.failed;
  error_code = some error_code;
  logical_run_id = none;
  wave_id = none;
  execution_id = none;
  input_digest = none;
  execution_fingerprint = none;
  output_media_type = none;
  output_sha256 = none;
  output_size_bytes = none;
  output_b64 = none;
}

-- The answer with the output of the successful attempt.
unfoldable pub succeeded_response :
    Runtime → BrokerRequestState → AttemptOutput → BrokerExecuteResponse
succeeded_response r s o = record {
  request_id = s.request_id;
  status = AnswerStatus.succeeded;
  error_code = none;
  logical_run_id = some s.logical_run_id;
  wave_id = some s.wave_id;
  execution_id = s.execution_id;
  input_digest = some s.binding.input_digest;
  execution_fingerprint = some s.binding.execution_fingerprint;
  output_media_type = some o.media_type;
  output_sha256 = some o.digest;
  output_size_bytes = some o.size_bytes;
  output_b64 = some (r.b64encode o.payload);
}

-- `status`, and `error_code` of a failure
pub data CommitStatus : Type 0 where
  accepted : CommitStatus
  refused : String → CommitStatus

pub record BrokerDeliveryCommitResponse : Type 0 where
  pub request_id : String
  pub status : CommitStatus
