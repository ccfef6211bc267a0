-- ===== src/Protocol/Codec/Envelopes.antt =====
-- fs-protocol/src/codec.rs: the coding of the envelopes.
pub mod Responses
pub mod RoundTrip
use fabric_fs.Prelude.{
  ℕ, Bool, true, false, not, ◌==◌, ◌===◌, string_eq, Option, none, some, List, [], ◌∷◌, String,
  if◌then◌else◌, Result, ok, err, ensure, ◌>>=◌, ◌>>◌,
}
use fabric_fs.Prelude.Int.{ℤ}
use fabric_fs.Protocol.Error.{
  ProtocolError, unsupported_version, invalid_envelope, payload_mismatch, invalid_response_state,
}
use fabric_fs.Protocol.Errno
use fabric_fs.Protocol.Errno.{Errno, is_error, success}
use fabric_fs.Protocol.Operation.{Operation, same_operation}
use fabric_fs.Protocol.OperationSpec.Table.{wire_value_of, try_from_wire}
use fabric_fs.Protocol.Messages.{TraceContext, default_trace}
use fabric_fs.Protocol.Invalidation.{validate_invalidation}
use fabric_fs.Protocol.Validation.{validate_each}
use fabric_fs.Protocol.RequestPayload
use fabric_fs.Protocol.RequestPayload.{RequestPayload}
use fabric_fs.Protocol.ResponsePayload
use fabric_fs.Protocol.ResponsePayload.{ResponsePayload}
use fabric_fs.Protocol.RequestEnvelope
use fabric_fs.Protocol.RequestEnvelope.{RequestEnvelope, protocol_version_2}
use fabric_fs.Protocol.ResponseEnvelope
use fabric_fs.Protocol.ResponseEnvelope.{ResponseEnvelope}
use fabric_fs.Protocol.Codec.{Prost, RawRequest, RawResponse, map_encode, map_decode}
use fabric_fs.Protocol.Codec.Payloads.{
  encode_request_payload, decode_request_payload, encode_response_payload, decode_response_payload,
}

-- Every operation has a row in the operation table.
abbrev pub row_value : Option ℕ → ℕ
row_value none = 0
row_value (some value) = value

-- `Operation::wire_value`
unfoldable pub operation_value : Operation → ℕ
operation_value operation = row_value (wire_value_of operation)

abbrev pub or_default : Option TraceContext → TraceContext
or_default none = default_trace
or_default (some trace) = trace

abbrev pub raw_request : {P : Type 0} → RequestEnvelope → P → RawRequest P
raw_request envelope payload = record {
  protocol_version = envelope.protocol_version;
  request_id = envelope.request_id;
  operation = operation_value envelope.operation;
  namespace = envelope.namespace;
  deadline_unix_nanos = envelope.deadline_unix_nanos;
  trace = some envelope.trace;
  payload = payload;
  payload_operation = operation_value (RequestPayload.operation envelope.payload);
  observations = envelope.observations;
  caller = envelope.caller;
}

unfoldable pub encode_request :
    {P E : Type 0} → Prost P E → RequestEnvelope → Result ProtocolError E
encode_request prost envelope = do
  RequestEnvelope.validate envelope
  payload ← encode_request_payload prost envelope.payload
  map_encode (prost.encode_raw_request (raw_request envelope payload))

-- The checks that the two decodings share.
unfoldable pub check_identity : ℕ → String → String → Result ProtocolError (Unit {0})
check_identity protocol_version request_id namespace = do
  ensure (protocol_version == protocol_version_2) (unsupported_version protocol_version)
  ensure (not (request_id === "")) (invalid_envelope "request_id must not be empty")
  ensure (not (namespace === "")) (invalid_envelope "namespace must not be empty")

unfoldable pub read_operation : ℕ → ℕ → Result ProtocolError Operation
read_operation value payload_value = do
  operation ← try_from_wire value
  payload_operation ← try_from_wire payload_value
  ensure (same_operation operation payload_operation) (payload_mismatch operation payload_operation)
  ok operation

abbrev pub request_of : {P : Type 0} → RawRequest P → Operation → RequestPayload → RequestEnvelope
request_of raw operation payload = record {
  protocol_version = raw.protocol_version;
  request_id = raw.request_id;
  operation = operation;
  namespace = raw.namespace;
  deadline_unix_nanos = raw.deadline_unix_nanos;
  trace = or_default raw.trace;
  caller = raw.caller;
  payload = payload;
  observations = raw.observations;
}

unfoldable pub decode_request :
    {P E : Type 0} → Prost P E → E → Result ProtocolError RequestEnvelope
decode_request prost bytes = do
  raw ← map_decode (prost.decode_raw_request bytes)
  check_identity raw.protocol_version raw.request_id raw.namespace
  operation ← read_operation raw.operation raw.payload_operation
  payload ← decode_request_payload prost operation raw.payload
  ok (request_of raw operation payload)

abbrev pub raw_response : {P : Type 0} → ResponseEnvelope → P → Operation → Errno → RawResponse P
raw_response envelope payload payload_operation errno = record {
  protocol_version = envelope.protocol_version;
  request_id = envelope.request_id;
  operation = operation_value envelope.operation;
  namespace = envelope.namespace;
  deadline_unix_nanos = envelope.deadline_unix_nanos;
  trace = some envelope.trace;
  payload = payload;
  is_success = envelope.is_success;
  errno = Errno.wire_value errno;
  error_message = envelope.error_message;
  observations = envelope.observations;
  invalidations = envelope.invalidations;
  payload_operation = operation_value payload_operation;
}

unfoldable pub encode_success :
    {P E : Type 0}
    → Prost P E
    → ResponseEnvelope
    → Option ResponsePayload
    → Result ProtocolError (RawResponse P)
encode_success prost envelope none = err (invalid_response_state "missing success payload")
encode_success prost envelope (some payload) = do
  bytes ← encode_response_payload prost payload
  ok (raw_response envelope bytes (ResponsePayload.operation payload) success)

unfoldable pub encode_failure :
    {P E : Type 0}
    → Prost P E
    → ResponseEnvelope
    → Option Errno
    → Result ProtocolError (RawResponse P)
encode_failure prost envelope none = err (invalid_response_state "missing error errno")
encode_failure prost envelope (some errno) =
    if is_error errno
    then ok (raw_response envelope prost.no_bytes envelope.operation errno)
    else err (invalid_response_state "missing error errno")

-- The two branches of `if envelope.ok`.
unfoldable pub encode_state :
    {P E : Type 0} → Prost P E → ResponseEnvelope → Bool → Result ProtocolError (RawResponse P)
encode_state prost envelope true = encode_success prost envelope envelope.payload
encode_state prost envelope false = encode_failure prost envelope envelope.errno

unfoldable pub encode_response :
    {P E : Type 0} → Prost P E → ResponseEnvelope → Result ProtocolError E
encode_response prost envelope = do
  ResponseEnvelope.validate envelope
  raw ← encode_state prost envelope envelope.is_success
  map_encode (prost.encode_raw_response raw)

abbrev pub response_of :
    {P : Type 0}
    → RawResponse P
    → Operation
    → Bool
    → Option Errno
    → Option ResponsePayload
    → ResponseEnvelope
response_of raw operation is_success errno payload = record {
  protocol_version = raw.protocol_version;
  request_id = raw.request_id;
  operation = operation;
  namespace = raw.namespace;
  deadline_unix_nanos = raw.deadline_unix_nanos;
  trace = or_default raw.trace;
  is_success = is_success;
  errno = errno;
  error_message = raw.error_message;
  payload = payload;
  observations = raw.observations;
  invalidations = raw.invalidations;
}

-- The two branches of `if raw.ok`.
unfoldable pub decode_state :
    {P E : Type 0}
    → Prost P E
    → RawResponse P
    → Operation
    → Errno
    → Bool
    → Result ProtocolError ResponseEnvelope
decode_state prost raw operation errno true = do
  ensure (errno.raw == 0) (invalid_response_state "successful response carried errno")
  payload ← decode_response_payload prost operation raw.payload
  ok (response_of raw operation true none (some payload))
decode_state prost raw operation errno false = do
  ensure (not (errno.raw == 0)) (invalid_response_state "error response missing errno")
  ensure (prost.is_empty_payload raw.payload)
      (invalid_response_state "error response carried payload")
  ok (response_of raw operation false (some errno) none)

unfoldable pub decode_response :
    {P E : Type 0} → Prost P E → E → Result ProtocolError ResponseEnvelope
decode_response prost bytes = do
  raw ← map_decode (prost.decode_raw_response bytes)
  check_identity raw.protocol_version raw.request_id raw.namespace
  operation ← read_operation raw.operation raw.payload_operation
  errno ← Errno.try_from raw.errno
  validate_each validate_invalidation raw.invalidations
  decode_state prost raw operation errno raw.is_success
