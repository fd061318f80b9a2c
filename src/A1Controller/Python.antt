-- ===== src/A1Controller/Python.antt =====
-- What the controller and the broker take from Python and from pydantic: `str` of a JSON value,
-- the UTF-8 bytes of a text, `json.dumps`, and the JSON and the equality of a job.
use portable_batch_execution.Base.{ok, Outcome, String, Bool, true, truthy, ◌≡◌}
use portable_batch_execution.Base.Int.{ℤ}
use portable_batch_execution.Contracts.Job.{int, Param, JobSpec, text}
use portable_batch_execution.Contracts.Json.{truthy_param}
use portable_batch_execution.DataPlane.Host.{Bytes, Host}

pub record Runtime : Type 0 where
  pub host : Host
  -- `str(value)`
  pub str : Param → String
  -- `text.encode("utf-8")`
  pub encode : String → Bytes
  -- `json.dumps(value, sort_keys=True, separators=(",", ":"))`
  pub dumps : Param → String
  -- `json.dumps(value, sort_keys=True)`
  pub dumps_spaced : Param → String
  -- `int(value)`
  pub int_of : Param → Outcome ℤ
  -- `base64.b64encode(data).decode("ascii")`
  pub b64encode : Bytes → String
  -- `base64.b64decode(text, validate=True)`, which raises a ValueError
  pub b64decode : String → Outcome Bytes
  -- `job.model_dump_json()` and `existing == job`
  pub job_json : JobSpec → String
  pub same_job : JobSpec → JobSpec → Bool

-- What is documented of these: `str` of a text is the text, of no true value is it empty, and
-- `int` of an integer is the integer.
pub record IsRuntime (r : Runtime) : Type 0 where
  pub str-text : (s : String) → r.str (text s) ≡ s
  pub int_of-int : (n : ℤ) → r.int_of (int n) ≡ ok n
  pub str-truthy : (p : Param) → truthy_param p ≡ true → truthy (r.str p) ≡ true

-- `sha256(text.encode("utf-8")).hexdigest()`
abbrev pub text_digest : Runtime → String → String
text_digest r s = r.host.hexdigest (r.encode s)
