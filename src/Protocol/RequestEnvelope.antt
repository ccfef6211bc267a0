-- ===== src/Protocol/RequestEnvelope.antt =====
-- fs-protocol/src/envelope.rs: the envelope of a request.
use fabric_fs.Prelude.{
  ℕ, not, Option, none, some, List, [], String, ◌===◌, string_eq, ◌==◌, Result, ok, ensure, ◌>>◌,
}
use fabric_fs.Protocol.Error.{
  ProtocolError, unsupported_version, invalid_envelope, payload_mismatch,
}
use fabric_fs.Protocol.Operation.{Operation, same_operation}
use fabric_fs.Protocol.Messages.{TraceContext, CallerContext, Observation}
use fabric_fs.Protocol.RequestPayload
use fabric_fs.Protocol.RequestPayload.{RequestPayload}

abbrev pub protocol_version_2 : ℕ
protocol_version_2 = 2

pub record RequestEnvelope : Type 0 where
  pub protocol_version : ℕ
  pub request_id : String
  pub operation : Operation
  pub namespace : String
  pub deadline_unix_nanos : ℕ
  pub trace : TraceContext
  pub caller : Option CallerContext
  pub payload : RequestPayload
  pub observations : List Observation

unfoldable pub validate_identity : RequestEnvelope → Result ProtocolError (Unit {0})
validate_identity request = do
  ensure (request.protocol_version == protocol_version_2)
      (unsupported_version request.protocol_version)
  ensure (not (request.request_id === "")) (invalid_envelope "request_id must not be empty")
  ensure (not (request.namespace === "")) (invalid_envelope "namespace must not be empty")
  ensure (same_operation request.operation (RequestPayload.operation request.payload))
      (payload_mismatch request.operation (RequestPayload.operation request.payload))

unfoldable pub validate : RequestEnvelope → Result ProtocolError (Unit {0})
validate request = do validate_identity request; RequestPayload.validate request.payload

-- The envelope that `new` checks and returns.
abbrev pub new_envelope : String → String → ℕ → TraceContext → RequestPayload → RequestEnvelope
new_envelope request_id namespace deadline_unix_nanos trace payload = record {
  protocol_version = protocol_version_2;
  request_id = request_id;
  operation = RequestPayload.operation payload;
  namespace = namespace;
  deadline_unix_nanos = deadline_unix_nanos;
  trace = trace;
  caller = none;
  payload = payload;
  observations = [];
}

unfoldable pub new :
    String → String → ℕ → TraceContext → RequestPayload → Result ProtocolError RequestEnvelope
new request_id namespace deadline_unix_nanos trace payload = do
  RequestPayload.validate payload
  validate (new_envelope request_id namespace deadline_unix_nanos trace payload)
  ok (new_envelope request_id namespace deadline_unix_nanos trace payload)

unfoldable pub with_caller : RequestEnvelope → CallerContext → RequestEnvelope
with_caller request caller = record request { caller = some caller }
