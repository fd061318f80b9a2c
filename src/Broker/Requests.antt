-- ===== src/Broker/Requests.antt =====
-- broker/state.py: the states of requests, as JSON and in their store.
use portable_batch_execution.A1Controller.History.{text_or_null}
use portable_batch_execution.A1Controller.Python.{IsRuntime, Runtime}
use portable_batch_execution.Base.{
  value_error, not, key_error, type_error, ◌&&◌, none, raise_if, ◌≡◌, raise, some, ok, ◌==◌, ◌>>=◌,
  ◌>>◌, Outcome, Bool, String, Option, refl,
}
use portable_batch_execution.Base.Int.{pos, ℤ}
use portable_batch_execution.Contracts.Job.{
  item, no_more, array, int, closed_brace, dict, text, field, null, Fields, Param,
}
use portable_batch_execution.Contracts.Json.{or_else}
use portable_batch_execution.Lifecycle.Deletion.{same_param}
use portable_batch_execution.Lifecycle.Records.{BrokerRequestState, RequestBinding}
use portable_batch_execution.Lifecycle.References.{lookup_field}

-- `RequestBinding.matches`
unfoldable pub matches : RequestBinding → RequestBinding → Bool
matches a b =
    (a.input_digest == b.input_digest)
    && (a.pack == b.pack)
    && (a.operation == b.operation)
    && same_param (dict a.operation_params) (dict b.operation_params)
    && (a.execution_fingerprint == b.execution_fingerprint)
    && (a.public_sha == b.public_sha)

abbrev int_or_null : Option ℤ → Param
int_or_null none = null
int_or_null (some n) = int n

pub binding_json : RequestBinding → Fields
binding_json b = field "input_digest" (text b.input_digest) (
    field "pack" (text b.pack) (
      field "operation" (text b.operation) (
        field "operation_params" (dict b.operation_params) (
          field "execution_fingerprint" (text b.execution_fingerprint)
            (field "public_sha" (text b.public_sha) closed_brace)))))

-- `BrokerRequestState.to_json`
pub to_json : BrokerRequestState → Fields
to_json s = field "schema_version" (text "pbe.a1-unix-broker.request-state.v1") (
    field "request_id" (text s.request_id) (
      field "binding" (dict (binding_json s.binding)) (
        field "logical_run_id" (text s.logical_run_id) (
          field "wave_id" (text s.wave_id) (
            field "shard_id" (text s.shard_id) (
              field "status" (text s.status) (
                field "execution_id" (text_or_null s.execution_id) (
                  field "output_sha256" (text_or_null s.output_sha256) (
                    field "output_size_bytes" (int_or_null s.output_size_bytes) (
                      field "output_media_type" (text_or_null s.output_media_type) (
                        field "dispatch_count" (int s.dispatch_count) (
                          field "last_dispatched_failure_count"
                            (int s.last_dispatched_failure_count)
                            (field "last_reconciled_attempt_marker"
                              (text_or_null s.last_reconciled_attempt_marker)
                              closed_brace)))))))))))))

-- `payload.get(key)` where a text or `null` is expected. What else is there the source keeps as it
-- is; here it is refused.
optional_text : Option Param → Outcome (Option String)
optional_text none = ok none
optional_text (some p) = elim p [ null ↦ ok none | text s ↦ ok (some s) | _ ↦ raise type_error ]

optional_int : Option Param → Outcome (Option ℤ)
optional_int none = ok none
optional_int (some p) = elim p [ null ↦ ok none | int n ↦ ok (some n) | _ ↦ raise type_error ]

-- `dict(value)`; a list of pairs, which the source takes too, is refused here.
as_dict : Param → Outcome Fields
as_dict p = elim p [
  | dict fs ↦ ok fs
  | array ps ↦ elim ps [ no_more ↦ ok closed_brace | item _ _ ↦ raise type_error ]
  | _ ↦ raise type_error
]

-- `binding_payload`, or the TypeError
as_binding : Param → Outcome Fields
as_binding p = elim p [ dict fs ↦ ok fs | _ ↦ raise type_error ]

module _ (r : Runtime) where
  -- `str(payload[key])`
  required_text : Fields → String → Outcome String
  required_text fs key = elim (lookup_field fs key) [
    | none ↦ raise (key_error key)
    | some p ↦ ok (r.str p)
  ]

  pub binding_from_json : Fields → Outcome RequestBinding
  binding_from_json fs = do
    input_digest ← required_text fs "input_digest"
    pack ← required_text fs "pack"
    operation ← required_text fs "operation"
    params ← as_dict (or_else (lookup_field fs "operation_params") (dict closed_brace))
    fingerprint ← required_text fs "execution_fingerprint"
    public_sha ← required_text fs "public_sha"
    ok (record {
      input_digest = input_digest;
      pack = pack;
      operation = operation;
      operation_params = params;
      execution_fingerprint = fingerprint;
      public_sha = public_sha;
    })

  -- `BrokerRequestState.from_json`
  pub from_json : Fields → Outcome BrokerRequestState
  from_json payload = do
    raise_if
        (not (
          same_param (or_else (lookup_field payload "schema_version") null)
            (text "pbe.a1-unix-broker.request-state.v1")))
        (value_error "unsupported broker request state schema")
    binding_payload ← as_binding (or_else (lookup_field payload "binding") null)
    binding ← binding_from_json binding_payload
    request_id ← required_text payload "request_id"
    logical_run_id ← required_text payload "logical_run_id"
    wave_id ← required_text payload "wave_id"
    shard_id ← required_text payload "shard_id"
    status ← required_text payload "status"
    execution_id ← optional_text (lookup_field payload "execution_id")
    output_sha256 ← optional_text (lookup_field payload "output_sha256")
    output_size_bytes ← optional_int (lookup_field payload "output_size_bytes")
    output_media_type ← optional_text (lookup_field payload "output_media_type")
    dispatch_count ← r.int_of (or_else (lookup_field payload "dispatch_count") (int (pos 0)))
    failures ←
        r.int_of (or_else (lookup_field payload "last_dispatched_failure_count") (int (pos 0)))
    marker ← optional_text (lookup_field payload "last_reconciled_attempt_marker")
    ok (record {
      request_id = request_id;
      binding = binding;
      logical_run_id = logical_run_id;
      wave_id = wave_id;
      shard_id = shard_id;
      status = status;
      execution_id = execution_id;
      output_sha256 = output_sha256;
      output_size_bytes = output_size_bytes;
      output_media_type = output_media_type;
      dispatch_count = dispatch_count;
      last_dispatched_failure_count = failures;
      last_reconciled_attempt_marker = marker;
    })

  optional_text-text_or_null : (o : Option String) → optional_text (some (text_or_null o)) ≡ ok o
  unfolding optional_text
  optional_text-text_or_null none = refl
  optional_text-text_or_null (some s) = refl

  optional_int-int_or_null : (o : Option ℤ) → optional_int (some (int_or_null o)) ≡ ok o
  unfolding optional_int
  optional_int-int_or_null none = refl
  optional_int-int_or_null (some n) = refl

  binding_from_json-binding_json :
      ((s : String) → r.str (text s) ≡ s)
      → (b : RequestBinding) → binding_from_json (binding_json b) ≡ ok b
  unfolding binding_from_json binding_json required_text as_dict lookup_field
  binding_from_json-binding_json str-text b =
      rw
        (
          str-text b.input_digest,
          str-text b.pack,
          str-text b.operation,
          str-text b.execution_fingerprint,
          str-text b.public_sha,
        )
        refl

  -- Where `str` of a text is the text and `int` of an integer the integer: a state that is written is
  -- read back as it was.
  pub from_json-to_json : IsRuntime r → (s : BrokerRequestState) → from_json (to_json s) ≡ ok s
  unfolding from_json to_json required_text as_binding lookup_field same_param
  from_json-to_json laws s =
      rw
        (
          binding_from_json-binding_json laws.str-text s.binding,
          laws.str-text s.request_id,
          laws.str-text s.logical_run_id,
          laws.str-text s.wave_id,
          laws.str-text s.shard_id,
          laws.str-text s.status,
          optional_text-text_or_null s.execution_id,
          optional_text-text_or_null s.output_sha256,
          optional_int-int_or_null s.output_size_bytes,
          optional_text-text_or_null s.output_media_type,
          laws.int_of-int s.dispatch_count,
          laws.int_of-int s.last_dispatched_failure_count,
          optional_text-text_or_null s.last_reconciled_attempt_marker,
        )
        refl
