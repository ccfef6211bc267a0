-- ===== src/Protocol/ResponseEnvelope.antt =====
-- fs-protocol/src/envelope.rs: the envelope of a response, and the answers to a request.
pub mod Answers
use fabric_fs.Prelude.{
  ℕ, Bool, true, false, not, ◌||◌, Option, none, some, List, [], ◌∷◌, String, ◌===◌, string_eq,
  ◌==◌, if◌then◌else◌, Result, ok, err, ensure, ◌>>◌, ◌>>=◌,
}
use fabric_fs.Protocol.Error.{
  ProtocolError, unsupported_version, invalid_envelope, invalid_response_state, payload_mismatch,
}
use fabric_fs.Protocol.Errno.{Errno, is_error, invalid_argument}
use fabric_fs.Protocol.Operation.{Operation, same_operation}
use fabric_fs.Protocol.Messages.{TraceContext, CallerContext, Observation}
use fabric_fs.Protocol.Invalidation.{Invalidation, validate_invalidation}
use fabric_fs.Protocol.RequestPayload
use fabric_fs.Protocol.RequestPayload.{RequestPayload}
use fabric_fs.Protocol.ResponsePayload
use fabric_fs.Protocol.ResponsePayload.{ResponsePayload}
use fabric_fs.Protocol.Validation.{validate_each}
use fabric_fs.Protocol.RequestEnvelope
use fabric_fs.Protocol.RequestEnvelope.{RequestEnvelope, protocol_version_2}

pub record ResponseEnvelope : Type 0 where
  pub protocol_version : ℕ
  pub request_id : String
  pub operation : Operation
  pub namespace : String
  pub deadline_unix_nanos : ℕ
  pub trace : TraceContext
  pub is_success : Bool
  pub errno : Option Errno
  pub error_message : String
  pub payload : Option ResponsePayload
  pub observations : List Observation
  pub invalidations : List Invalidation

abbrev pub has_errno : Option Errno → Bool
has_errno none = false
has_errno (some e) = true

abbrev pub has_payload : Option ResponsePayload → Bool
has_payload none = false
has_payload (some p) = true

abbrev pub has_error : Option Errno → Bool
has_error none = false
has_error (some e) = is_error e

unfoldable pub validate_success :
    ResponseEnvelope → Option ResponsePayload → Result ProtocolError (Unit {0})
validate_success response none = err (invalid_response_state "missing success payload")
validate_success response (some payload) = do
  ensure (same_operation (ResponsePayload.operation payload) response.operation)
      (payload_mismatch response.operation (ResponsePayload.operation payload))
  ResponsePayload.validate payload

-- The two branches of `if self.ok`.
unfoldable pub validate_state : ResponseEnvelope → Bool → Result ProtocolError (Unit {0})
validate_state response true =
    ensure (not (has_errno response.errno))
      (invalid_response_state "successful response must not carry errno")
    >> validate_success response response.payload
validate_state response false =
    ensure (not (has_payload response.payload))
      (invalid_response_state "error response must not carry payload")
    >> ensure (has_error response.errno) (invalid_response_state "missing error errno")

unfoldable pub validate_identity_and_payload : ResponseEnvelope → Result ProtocolError (Unit {0})
validate_identity_and_payload response = do
  ensure (response.protocol_version == protocol_version_2)
      (unsupported_version response.protocol_version)
  ensure (not (response.request_id === "" || response.namespace === ""))
      (invalid_envelope "request_id and namespace must not be empty")
  validate_state response response.is_success

unfoldable pub validate_payload_for_request :
    Option ResponsePayload → RequestPayload → Result ProtocolError (Unit {0})
validate_payload_for_request none request = ok tt
validate_payload_for_request (some payload) request =
    ResponsePayload.validate_for_request payload request

unfoldable pub validate : ResponseEnvelope → Result ProtocolError (Unit {0})
validate response = do
  validate_identity_and_payload response
  validate_each validate_invalidation response.invalidations

unfoldable pub validate_identity_and_payload_for_request :
    ResponseEnvelope → RequestEnvelope → Result ProtocolError (Unit {0})
validate_identity_and_payload_for_request response request = do
  RequestEnvelope.validate request
  validate_identity_and_payload response
  ensure (response.request_id === request.request_id)
      (invalid_envelope "response request_id does not match request")
  ensure (response.namespace === request.namespace)
      (invalid_envelope "response namespace does not match request")
  ensure (same_operation response.operation request.operation)
      (invalid_envelope "response operation does not match request")
  validate_payload_for_request response.payload request.payload

unfoldable pub validate_for_request :
    ResponseEnvelope → RequestEnvelope → Result ProtocolError (Unit {0})
validate_for_request response request = do
  validate_identity_and_payload_for_request response request
  validate_each validate_invalidation response.invalidations

unfoldable pub response_request_id : RequestEnvelope → String
response_request_id request =
    if request.request_id === "" then "malformed-request" else request.request_id

unfoldable pub response_namespace : RequestEnvelope → String
response_namespace request =
    if request.namespace === "" then "malformed-namespace" else request.namespace

-- `Errno::Success` is no error: it becomes `InvalidArgument`.
unfoldable pub as_error : Errno → Errno
as_error e = if e.raw == 0 then invalid_argument else e

-- The envelope that `success_for` checks and returns.
abbrev pub success_envelope :
    RequestEnvelope → ResponsePayload → List Invalidation → ResponseEnvelope
success_envelope request payload invalidations = record {
  protocol_version = protocol_version_2;
  request_id = request.request_id;
  operation = request.operation;
  namespace = request.namespace;
  deadline_unix_nanos = request.deadline_unix_nanos;
  trace = request.trace;
  is_success = true;
  errno = none;
  error_message = "";
  payload = some payload;
  observations = [];
  invalidations = invalidations;
}

unfoldable pub success_for :
    RequestEnvelope → ResponsePayload → List Invalidation → Result ProtocolError ResponseEnvelope
success_for request payload invalidations = do
  RequestEnvelope.validate request
  ensure (same_operation request.operation (ResponsePayload.operation payload))
      (payload_mismatch request.operation (ResponsePayload.operation payload))
  ResponsePayload.validate_for_request payload request.payload
  validate_for_request (success_envelope request payload invalidations) request
  ok (success_envelope request payload invalidations)

unfoldable pub failure_for : RequestEnvelope → Errno → String → ResponseEnvelope
failure_for request errno message = record {
  protocol_version = protocol_version_2;
  request_id = response_request_id request;
  operation = request.operation;
  namespace = response_namespace request;
  deadline_unix_nanos = request.deadline_unix_nanos;
  trace = request.trace;
  is_success = false;
  errno = some (as_error errno);
  error_message = message;
  payload = none;
  observations = [];
  invalidations = [];
}
